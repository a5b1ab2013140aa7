-- ===== src/Validate/Widen/Refs.antt =====
-- The references of a schema: which they are, and how they and the sizes pass to its parts.
use editrig_go.Base.{
  ℕ, suc, ◌+◌, ◌≤◌, ◌<◌, ◌≡◌, refl, ap, subst, Bool, true, false, Option, none, some, some_inj,
  List, [], ◌∷◌, String, ◌==◌, if◌then◌else◌, mem_text, arith, All,
}
use editrig_go.Map.{lookup, delete}
use editrig_go.Json.{
  Value, null, bool, num, str, arr, obj, upload, typed, opaque, Items, nil, cons, Members, end,
  member, members, items, of_members, Data,
}
use editrig_go.Validate.Widen.{resolve, decode_token}
use editrig_go.Validate.Write.{size, size_items, size_members}

-- Every text under a key "$ref" of a value is in `known`.
unfoldable mutual
  pub RefsIn : List String → Value → Type 0
  RefsIn known (arr vs) = RefsInItems known vs
  RefsIn known (obj ms) = RefsInMembers known ms
  RefsIn known _ = Unit

  pub RefsInItems : List String → Items → Type 0
  RefsInItems known nil = Unit
  RefsInItems known (cons v vs) = RefsIn known v × RefsInItems known vs

  pub RefsInMembers : List String → Members → Type 0
  RefsInMembers known end = Unit
  RefsInMembers known (member k v ms) =
      ((s : String) → (k == "$ref") ≡ true → v ≡ str s → mem_text s known ≡ true)
      × RefsIn known v
      × RefsInMembers known ms

module _ (known : List String) where
  found_if :
      (b : Bool) (v w : Value) (rest : Option Value) (ms : Members)
      → RefsIn known v
      → (if b then some v else rest) ≡ some w
      → (rest ≡ some w → RefsIn known w × (size w ≤ size_members ms))
      → RefsIn known w × (size w ≤ suc (size v + size_members ms))
  found_if true v w rest ms r e h =
      (subst (RefsIn known) (some_inj e) r, ground (arith, ap size (some_inj e)))
  found_if false v w rest ms r e h = let (a, b) = h e in (a, omega (arith, b))

  pub lookup-RefsIn :
      (key : String) (ms : Members) (w : Value)
      → RefsInMembers known ms
      → lookup key (members ms) ≡ some w
      → RefsIn known w × (size w ≤ size_members ms)
  unfolding RefsIn lookup size
  lookup-RefsIn key end w r e = absurd (cc)
  lookup-RefsIn key (member k v ms) w (a, r, rs) e =
      found_if _ v w _ ms r e (lookup-RefsIn key ms w rs)

  resolve_step :
      (o : Option Value) (tokens : List String) (t v : Value)
      → elim o [ none ↦ none | some w ↦ resolve tokens w ] ≡ some t
      → ((w : Value) → o ≡ some w → RefsIn known w × (size w ≤ size v))
      → ((w : Value)
          → RefsIn known w
          → resolve tokens w ≡ some t
          → RefsIn known t × (size t ≤ size w))
      → RefsIn known t × (size t ≤ size v)
  resolve_step none tokens t v e h k = absurd (cc)
  resolve_step (some w) tokens t v e h k =
      let (r, s) = h w refl in let (r', s') = k w r e in (r', omega (arith, s, s'))

  -- A reference leads to a part of the root.
  pub resolve-RefsIn :
      (tokens : List String) (v t : Value)
      → RefsIn known v
      → resolve tokens v ≡ some t
      → RefsIn known t × (size t ≤ size v)
  unfolding resolve RefsIn size
  resolve-RefsIn [] v t r e =
      (subst (RefsIn known) (some_inj e) r, ground (arith, ap size (some_inj e)))
  resolve-RefsIn (token ∷ tokens) (obj ms) t r e =
      resolve_step (lookup (decode_token token) (members ms)) tokens t (obj ms) e
        (λ w p. let (a, b) = lookup-RefsIn (decode_token token) ms w r p in (a, omega (arith, b)))
        (λ w. resolve-RefsIn tokens w t)
  resolve-RefsIn (token ∷ tokens) null t r e = absurd (cc)
  resolve-RefsIn (token ∷ tokens) (bool b) t r e = absurd (cc)
  resolve-RefsIn (token ∷ tokens) (num n) t r e = absurd (cc)
  resolve-RefsIn (token ∷ tokens) (str s) t r e = absurd (cc)
  resolve-RefsIn (token ∷ tokens) (arr a) t r e = absurd (cc)
  resolve-RefsIn (token ∷ tokens) (upload u) t r e = absurd (cc)
  resolve-RefsIn (token ∷ tokens) (typed o) t r e = absurd (cc)
  resolve-RefsIn (token ∷ tokens) opaque t r e = absurd (cc)

  own_ref_if :
      (b : Bool) (v : Value) (rest : Option Value) (s : String)
      → ((u : String) → b ≡ true → v ≡ str u → mem_text u known ≡ true)
      → (if b then some v else rest) ≡ some (str s)
      → (rest ≡ some (str s) → mem_text s known ≡ true)
      → mem_text s known ≡ true
  own_ref_if true v rest s a e h = a s refl (some_inj e)
  own_ref_if false v rest s a e h = h e

  pub ref-known :
      (ms : Members) (s : String)
      → RefsInMembers known ms
      → lookup "$ref" (members ms) ≡ some (str s)
      → mem_text s known ≡ true
  unfolding RefsIn lookup
  ref-known end s r e = absurd (cc)
  ref-known (member k v ms) s (a, r, rs) e = own_ref_if _ v _ s a e (ref-known ms s rs)

  delete_if :
      (b : Bool) (k : String) (v : Value) (rest : Data) (n : ℕ)
      → ((s : String) → (k == "$ref") ≡ true → v ≡ str s → mem_text s known ≡ true)
      → RefsIn known v
      → RefsInMembers known (of_members rest) × (size_members (of_members rest) ≤ n)
      → RefsInMembers known (of_members (if b then rest else (k, v) ∷ rest))
        × (size_members (of_members (if b then rest else (k, v) ∷ rest)) ≤ suc (size v + n))
  unfolding RefsIn size
  delete_if true k v rest n a r (h, l) = (h, omega (arith, l))
  delete_if false k v rest n a r (h, l) = ((a, r, h), omega (arith, l))

  delete-RefsIn :
      (key : String) (ms : Members)
      → RefsInMembers known ms
      → RefsInMembers known (of_members (delete key (members ms)))
        × (size_members (of_members (delete key (members ms))) ≤ size_members ms)
  unfolding RefsIn size delete
  delete-RefsIn key end r = (tt, omega arith)
  delete-RefsIn key (member k v ms) (a, r, rs) = delete_if _ k v _ _ a r (delete-RefsIn key ms rs)

  shrinks_if :
      (b : Bool) (k : String) (v w : Value) (rest : Data) (found : Option Value) (n : ℕ)
      → size_members (of_members rest) ≤ n
      → (if b then some v else found) ≡ some w
      → (found ≡ some w → size_members (of_members rest) < n)
      → size_members (of_members (if b then rest else (k, v) ∷ rest)) < suc (size v + n)
  unfolding size
  shrinks_if true k v w rest found n l e h = omega (arith, l)
  shrinks_if false k v w rest found n l e h = omega (arith, h e)

  delete_shrinks :
      (key : String) (ms : Members) (w : Value)
      → RefsInMembers known ms
      → lookup key (members ms) ≡ some w
      → size_members (of_members (delete key (members ms))) < size_members ms
  unfolding RefsIn size delete lookup
  delete_shrinks key end w r e = absurd (cc)
  delete_shrinks key (member k v ms) w (a, r, rs) e =
      shrinks_if _ k v w _ _ _ ((delete-RefsIn key ms rs).1) e (delete_shrinks key ms w rs)

  -- What is left without a key that was there.
  pub rest-RefsIn :
      (key : String) (ms : Members) (w : Value)
      → RefsInMembers known ms
      → lookup key (members ms) ≡ some w
      → RefsIn known (obj (of_members (delete key (members ms))))
        × (size (obj (of_members (delete key (members ms)))) < size (obj ms))
  unfolding RefsIn size
  rest-RefsIn key ms w r e =
      ((delete-RefsIn key ms r).0, omega (arith, delete_shrinks key ms w r e))

  pub items-RefsIn :
      (vs : Items) (n : ℕ)
      → RefsInItems known vs
      → size_items vs ≤ n
      → All (λ v. RefsIn known v × (size v ≤ n)) (items vs)
  unfolding RefsIn size
  items-RefsIn nil n r l = tt
  items-RefsIn (cons v vs) n (r, rs) l =
      ((r, omega (arith, l)), items-RefsIn vs n rs (omega (arith, l)))
