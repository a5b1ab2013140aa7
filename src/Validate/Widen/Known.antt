-- ===== src/Validate/Widen/Known.antt =====
-- The references that a schema has, their number, and those that a path has not followed.
use editrig_go.Base.{
  ℕ, suc, ◌+◌, ◌≤◌, ◌<◌, ◌≡◌, ap, sym, ◌∙◌, subst, Bool, true, false, List, [], ◌∷◌, ◌++◌, String,
  ◌==◌, eq_refl, eq_iff, if◌then◌else◌, mem_text, length, arith,
}
use editrig_go.Json.{
  Value, null, bool, num, str, arr, obj, upload, typed, opaque, Items, nil, cons, Members, end,
  member,
}
use editrig_go.Validate.Write.{size, size_items, size_members}
use editrig_go.Validate.Widen.Refs.{RefsIn, RefsInItems, RefsInMembers}

abbrev pub own_ref : Bool → Value → List String
own_ref true (str s) = s ∷ []
own_ref _ v = []

unfoldable mutual
  pub refs : Value → List String
  refs (arr vs) = refs_items vs
  refs (obj ms) = refs_members ms
  refs _ = []

  pub refs_items : Items → List String
  refs_items nil = []
  refs_items (cons v vs) = refs v ++ refs_items vs

  pub refs_members : Members → List String
  refs_members end = []
  refs_members (member k v ms) = own_ref (k == "$ref") v ++ (refs v ++ refs_members ms)

mem_text-++ :
    (s : String) (xs ys : List String)
    → (mem_text s xs ≡ true → mem_text s (xs ++ ys) ≡ true)
      × (mem_text s ys ≡ true → mem_text s (xs ++ ys) ≡ true)
mem_text-++ s [] ys = ((λ h. absurd (cc)), (λ h. h))
mem_text-++ s (x ∷ xs) ys =
    let (l, r) = mem_text-++ s xs ys in ((λ h. ground (arith, h, l)), (λ h. ground (arith, h, r)))

pub length-++ : (xs ys : List String) → length (xs ++ ys) ≡ length xs + length ys
length-++ [] ys = omega arith
length-++ (x ∷ xs) ys = ap suc (length-++ xs ys) ∙ omega arith

-- A larger set of known references.
abbrev pub Within : List String → List String → Type 0
Within xs ys = (s : String) → mem_text s xs ≡ true → mem_text s ys ≡ true

pub left-Within : (xs ys : List String) → Within xs (xs ++ ys)
left-Within xs ys s = (mem_text-++ s xs ys).0

pub right-Within : (xs ys : List String) → Within ys (xs ++ ys)
right-Within xs ys s = (mem_text-++ s xs ys).1

own_ref-known :
    (b : Bool) (v : Value) (s : String) → b ≡ true → v ≡ str s → mem_text s (own_ref b v) ≡ true
own_ref-known true v s h e =
    subst (λ u. mem_text s (own_ref true u) ≡ true) (sym e) (ground (arith, eq_refl s))
own_ref-known false v s h e = absurd (cc)

mutual
  unfolding RefsIn refs

  pub refs-RefsIn : (v : Value) (known : List String) → Within (refs v) known → RefsIn known v
  refs-RefsIn (arr vs) known h = refs_items-RefsIn vs known h
  refs-RefsIn (obj ms) known h = refs_members-RefsIn ms known h
  refs-RefsIn null known h = tt
  refs-RefsIn (bool b) known h = tt
  refs-RefsIn (num n) known h = tt
  refs-RefsIn (str s) known h = tt
  refs-RefsIn (upload u) known h = tt
  refs-RefsIn (typed o) known h = tt
  refs-RefsIn opaque known h = tt

  refs_items-RefsIn :
      (vs : Items) (known : List String) → Within (refs_items vs) known → RefsInItems known vs
  refs_items-RefsIn nil known h = tt
  refs_items-RefsIn (cons v vs) known h = (
    refs-RefsIn v known (λ s m. h s (left-Within (refs v) (refs_items vs) s m)),
    refs_items-RefsIn vs known (λ s m. h s (right-Within (refs v) (refs_items vs) s m)),
  )

  refs_members-RefsIn :
      (ms : Members) (known : List String) → Within (refs_members ms) known → RefsInMembers known ms
  refs_members-RefsIn end known h = tt
  refs_members-RefsIn (member k v ms) known h = (
    (λ s b e. h s (left-Within (own_ref (k == "$ref") v) _ s (own_ref-known _ v s b e))),
    refs-RefsIn v known (λ s m.
        h s (
          right-Within (own_ref (k == "$ref") v) _ s (left-Within (refs v) (refs_members ms) s m))),
    refs_members-RefsIn ms known (λ s m.
        h s (
          right-Within (own_ref (k == "$ref") v) _ s
            (right-Within (refs v) (refs_members ms) s m))),
  )

-- How many of the known references a path has not followed.
abbrev pub unseen : List String → List String → ℕ
unseen [] seen = 0
unseen (k ∷ known) seen = let rest = unseen known seen in if mem_text k seen then rest else suc rest

unseen_le :
    (known : List String) (seen : List String) (s : String)
    → unseen known (s ∷ seen) ≤ unseen known seen
unseen_le [] seen s = omega arith
unseen_le (k ∷ known) seen s = ground (arith, unseen_le known seen s)

pub unseen_lt :
    (known seen : List String) (s : String)
    → mem_text s known ≡ true
    → mem_text s seen ≡ false
    → unseen known (s ∷ seen) < unseen known seen
unseen_lt [] seen s m f = absurd (cc)
unseen_lt (k ∷ known) seen s m f =
    ground (arith, unseen_le known seen s, unseen_lt known seen s, eq_iff k s, eq_refl s, m, f)

pub unseen-length : (known : List String) → unseen known [] ≤ length known
unseen-length [] = omega arith
unseen-length (k ∷ known) = ground (arith, unseen-length known)

own_ref-length : (b : Bool) (v : Value) → length (own_ref b v) ≤ 1
own_ref-length false v = omega arith
own_ref-length true (str s) = omega arith
own_ref-length true null = omega arith
own_ref-length true (bool b) = omega arith
own_ref-length true (num n) = omega arith
own_ref-length true (arr a) = omega arith
own_ref-length true (obj a) = omega arith
own_ref-length true (upload f) = omega arith
own_ref-length true (typed o) = omega arith
own_ref-length true opaque = omega arith

mutual
  unfolding size refs

  pub refs-length : (v : Value) → length (refs v) ≤ size v
  refs-length (arr vs) = omega (arith, refs_items-length vs)
  refs-length (obj ms) = omega (arith, refs_members-length ms)
  refs-length null = omega arith
  refs-length (bool b) = omega arith
  refs-length (num n) = omega arith
  refs-length (str s) = omega arith
  refs-length (upload f) = omega arith
  refs-length (typed o) = omega arith
  refs-length opaque = omega arith

  refs_items-length : (vs : Items) → length (refs_items vs) ≤ size_items vs
  refs_items-length nil = omega arith
  refs_items-length (cons v vs) =
      omega (arith, refs-length v, refs_items-length vs, length-++ (refs v) (refs_items vs))

  refs_members-length : (ms : Members) → length (refs_members ms) ≤ size_members ms
  refs_members-length end = omega arith
  refs_members-length (member k v ms) = omega (
    arith,
    own_ref-length (k == "$ref") v,
    refs-length v,
    refs_members-length ms,
    length-++ (refs v) (refs_members ms),
    length-++ (own_ref (k == "$ref") v) (refs v ++ refs_members ms),
  )
