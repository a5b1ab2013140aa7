-- ===== src/Validate/Widen/Fuel.antt =====
-- The fuel of `uploadArraySchema`: a reference is followed once on a path, so the calls end.
use editrig_go.Base.{
  ℕ, zero, suc, ◌+◌, ◌*◌, ◌≤◌, ◌<◌, ◌≡◌, ap, sym, ◌∙◌, subst, true, false, some, List, [], ◌∷◌,
  ◌++◌, String, mem_text, arith, All,
}
use editrig_go.Map.{lookup, delete}
use editrig_go.Json.{
  Value, Data, Members, null, bool, num, str, arr, obj, upload, typed, opaque, members, items,
  of_members, as_string, as_array,
}
use editrig_go.Validate.Widen.{
  ok, exhausted, refuse_if, or_failed, map_checked, any_of, array_keywords, ref_tokens, widen_items,
  resolve, upload_array_schema,
}
use editrig_go.Validate.Widen.Refs.{
  RefsIn, lookup-RefsIn, resolve-RefsIn, ref-known, rest-RefsIn, items-RefsIn,
}
use editrig_go.Validate.Widen.Known.{
  refs, length-++, left-Within, right-Within, refs-RefsIn, refs-length, unseen, unseen_lt,
  unseen-length,
}
use editrig_go.Validate.Widen.Ends.{
  ends, ends-ok, ends-bind, ends-elim, ends-map_checked, ends-refuse_if, ends-or_failed,
  or_failed-ok, refuse_if-ok, as_string-str, as_array-arr, ends-widen_items, lookup-widen_items,
  ends-exhausted,
}
use editrig_go.Validate.Write.{size, size_items, widen_fuel}

module _ (root : Value) (markers : List Value) (known : List String) (bound : ℕ) where
  -- The calls under a reference have one reference less to follow.
  abbrev Enough : ℕ → List String → Value → Type 0
  Enough fuel seen node =
      (left : ℕ) × (unseen known seen ≤ left) × (left * bound + size node < fuel)

  target-Enough :
      (fuel : ℕ) (seen : List String) (node target : Value) (ref : String)
      → size root < bound
      → Enough (suc fuel) seen node
      → mem_text ref known ≡ true
      → mem_text ref seen ≡ false
      → size target ≤ size root
      → Enough fuel (ref ∷ seen) target
  target-Enough fuel seen node target ref b (zero, u, l) m f t =
      absurd (omega (arith, unseen_lt known seen ref m f, u))
  target-Enough fuel seen node target ref b (suc left, u, l) m f t =
      (left, omega (arith, unseen_lt known seen ref m f, u), omega (arith, b, l, t))

  part-Enough :
      (fuel : ℕ) (seen : List String) (node part : Value)
      → Enough (suc fuel) seen node
      → size part < size node
      → Enough fuel seen part
  part-Enough fuel seen node part (left, u, l) s = (left, u, omega (arith, l, s))

  -- What the calls on parts of bounded size give.
  ends_parts :
      (fuel n : ℕ) (seen : List String) (vs : List Value)
      → ((v : Value)
          → RefsIn known v
          → Enough fuel seen v
          → ends (upload_array_schema root markers fuel seen v) ≡ true)
      → ((v : Value) → size v ≤ n → Enough fuel seen v)
      → All (λ v. RefsIn known v × (size v ≤ n)) vs
      → All (λ v. ends (upload_array_schema root markers fuel seen v) ≡ true) vs
  ends_parts fuel n seen [] h k a = tt
  ends_parts fuel n seen (v ∷ vs) h k ((r, l), a) = (h v r (k v l), ends_parts fuel n seen vs h k a)

  -- The parts under "allOf" of what `items` was widened in.
  ends_branches :
      (fuel : ℕ) (seen : List String) (ms : Members) (widened : Data) (branches : List Value)
      → RefsIn known (obj ms)
      → Enough (suc fuel) seen (obj ms)
      → widen_items markers (members ms) ≡ ok widened
      → as_array (lookup "allOf" widened) ≡ some branches
      → ((v : Value)
          → RefsIn known v
          → Enough fuel seen v
          → ends (upload_array_schema root markers fuel seen v) ≡ true)
      → ends (map_checked (upload_array_schema root markers fuel seen) branches) ≡ true
  unfolding RefsIn size
  ends_branches fuel seen ms widened branches r h w a rec =
      let (xs, at, same) = as_array-arr (lookup "allOf" widened) branches a in
      let (rx, lx) =
        lookup-RefsIn known "allOf" ms (arr xs) r
          (sym (lookup-widen_items markers (members ms) widened w) ∙ at) in
      ends-map_checked (upload_array_schema root markers fuel seen) branches (
        subst (All (λ v. ends (upload_array_schema root markers fuel seen v) ≡ true)) same (
          ends_parts fuel (size_items xs) seen (items xs) rec
            (λ v l. part-Enough fuel seen (obj ms) v h (omega (arith, l, lx)))
            (items-RefsIn known xs (size_items xs) rx (omega arith))))

  module _ (small : size root < bound) (closed : RefsIn known root) where
    ends-upload_array_schema :
        (fuel : ℕ) (seen : List String) (node : Value)
        → RefsIn known node
        → Enough fuel seen node
        → ends (upload_array_schema root markers fuel seen node) ≡ true
    unfolding upload_array_schema RefsIn size
    ends-upload_array_schema zero seen node r (left, u, l) = absurd (omega (arith, l))
    ends-upload_array_schema (suc fuel) seen (obj ms) r h =
        ends-bind (refuse_if (any_of array_keywords (members ms))) _ (ends-refuse_if _) (λ u p.
          ends-elim (as_string (lookup "$ref" (members ms))) _ _
            (λ n.
              ends-bind (widen_items markers (members ms)) _ (ends-widen_items markers _)
                (λ widened w.
                  ends-elim (as_array (lookup "allOf" widened)) _ _ (λ n. ends-ok _)
                    (λ branches a.
                      ends-bind (map_checked (upload_array_schema root markers fuel seen) branches)
                        _
                        (ends_branches fuel seen ms widened branches r h w a
                          (ends-upload_array_schema fuel seen))
                        (λ next q. ends-ok _))))
            (λ ref e.
              let at = as_string-str (lookup "$ref" (members ms)) ref e in
              ends-bind (refuse_if (mem_text ref seen)) _ (ends-refuse_if _) (λ u fresh.
                ends-bind (or_failed (ref_tokens ref)) _ (ends-or_failed _) (λ tokens q.
                  ends-bind (or_failed (resolve tokens root)) _ (ends-or_failed _) (λ target t.
                    let (rt, lt) =
                      resolve-RefsIn known tokens root target closed (or_failed-ok _ target t) in
                    let (rr, lr) = rest-RefsIn known "$ref" ms (str ref) r at in
                    ends-bind (upload_array_schema root markers fuel (ref ∷ seen) target) _
                      (ends-upload_array_schema fuel (ref ∷ seen) target rt (
                        target-Enough fuel seen (obj ms) target ref small h
                          (ref-known known ms ref r at) (refuse_if-ok _ u fresh) lt))
                      (λ expanded q.
                        ends-bind
                          (upload_array_schema root markers fuel seen
                            (obj (of_members (delete "$ref" (members ms)))))
                          _
                          (ends-upload_array_schema fuel seen _ rr (
                            part-Enough fuel seen (obj ms)
                              (obj (of_members (delete "$ref" (members ms)))) h lr))
                          (λ rest q. ends-ok _)))))))
    ends-upload_array_schema (suc fuel) seen null r h = ends-ok _
    ends-upload_array_schema (suc fuel) seen (bool b) r h = ends-ok _
    ends-upload_array_schema (suc fuel) seen (num n) r h = ends-ok _
    ends-upload_array_schema (suc fuel) seen (str s) r h = ends-ok _
    ends-upload_array_schema (suc fuel) seen (arr a) r h = ends-ok _
    ends-upload_array_schema (suc fuel) seen (upload f) r h = ends-ok _
    ends-upload_array_schema (suc fuel) seen (typed o) r h = ends-ok _
    ends-upload_array_schema (suc fuel) seen opaque r h = ends-ok _

square : (n m k : ℕ) → k < m → n * m + k < (n + 2) * m
square n m k l = omega (arith, l)

-- The fuel that a write gives is enough, for every schema of the entity and every array schema in
-- it: the search for the widened schema gives a schema or an error, and never runs out.
pub widen_fuel-upload_array_schema :
    (root node : Value) (markers : List Value)
    → ¬ (upload_array_schema root markers (widen_fuel root node) [] node ≡ exhausted)
unfolding widen_fuel
widen_fuel-upload_array_schema root node markers e =
    let known = refs root ++ refs node in
    let done =
      ends-upload_array_schema root markers known (size root + size node + 2) (omega arith)
        (refs-RefsIn root known (left-Within (refs root) (refs node))) (widen_fuel root node) []
        node (refs-RefsIn node known (right-Within (refs root) (refs node)))
        (
          size root + size node,
          omega (
            arith,
            unseen-length known,
            length-++ (refs root) (refs node),
            refs-length root,
            refs-length node,
          ),
          square (size root + size node) (size root + size node + 2) (size node) (omega arith),
        ) in
    let clash = sym done ∙ ap ends e ∙ ends-exhausted Value in absurd (cc)
