-- ===== src/Handler/Injected.antt =====
-- What the loop over the uploaded files puts into the payload.
use editrig_go.Base.{
  ◌≡◌, ◌≢◌, refl, sym, subst, ◌∙◌, false, Option, none, some, arith, List, [], ◌∷◌, ◌++◌, String,
  ◌==◌, if◌then◌else◌, eq_iff, Bool-cases, Option-cases, inl, inr, mem_text, map,
}
use editrig_go.Map.{Map, lookup, insert}
use editrig_go.Map.Laws.{lookup-insert}
use editrig_go.Json.{Value, Raw, arr, upload, Upload, as_array, or_nil, of_items}
use editrig_go.Validate.Media.{MediaKind, media_none, media_single, media_multi, media_field_kind}
use editrig_go.Handler.Write.{Injected, inject, inject_kind, multi_value}

-- No name stands twice in the list.
abbrev pub AreApart : List String → Type 0
AreApart [] = Unit
AreApart (f ∷ fs) = (mem_text f fs ≡ false) × AreApart fs

-- The value of a field after its files went in: the only file of a single field, the files of a
-- multi field behind the submitted items; any other field accepts none.
abbrev pub IsAccepted : MediaKind → List Upload → Option Value → Option Value → Type 0
IsAccepted media_none ups old new = ⊥
IsAccepted media_single ups old new = (up : Upload) × ((ups ≡ up ∷ []) × (new ≡ some (upload up)))
IsAccepted media_multi ups old new =
    new ≡ some (arr (of_items (or_nil (as_array old) ++ map upload ups)))

-- What one file field does when it reports no error.
record Accepts (kind : MediaKind) (field : String) (ups : List Upload) (s t : Injected)
    : Type 0 where
  before : s.field_errors ≡ []
  accepted : IsAccepted kind ups (lookup field s.payload) (lookup field t.payload)
  others : (k : String) → field ≢ k → lookup k t.payload ≡ lookup k s.payload

append-ne-nil_right : {A : Type 0} (xs : List A) (x : A) → xs ++ x ∷ [] ≢ []
append-ne-nil_right [] x h = absurd (ground arith)
append-ne-nil_right (y ∷ xs) x h = absurd (ground arith)

abbrev AcceptsIfClean : MediaKind → String → List Upload → Injected → Option Injected → Type 0
AcceptsIfClean kind field ups s none = Unit
AcceptsIfClean kind field ups s (some t) = t.field_errors ≡ [] → Accepts kind field ups s t

inserted-Accepts :
    (kind : MediaKind) (field : String) (ups : List Upload) (v : Value) (s : Injected)
    → IsAccepted kind ups (lookup field s.payload) (some v)
    → s.field_errors ≡ []
    → Accepts kind field ups s (record s { payload = insert field v s.payload })
inserted-Accepts kind field ups v s a e = record {
  before = e;
  accepted =
      subst (IsAccepted kind ups (lookup field s.payload))
        (sym (ground (arith, lookup-insert field field v s.payload, eq_iff field field))) a;
  others = λ k n. ground (arith, lookup-insert field k v s.payload, eq_iff field k, n);
}

inject_kind-AcceptsIfClean :
    (kind : MediaKind) (field : String) (ups : List Upload) (s : Injected)
    → AcceptsIfClean kind field ups s (inject_kind kind field ups s)
unfolding inject_kind
inject_kind-AcceptsIfClean media_none field ups s =
    λ e. absurd (append-ne-nil_right s.field_errors _ e)
inject_kind-AcceptsIfClean media_single field [] s = tt
inject_kind-AcceptsIfClean media_single field (up ∷ []) s =
    λ e. inserted-Accepts media_single field (up ∷ []) (upload up) s (up, (refl, refl)) e
inject_kind-AcceptsIfClean media_single field (up ∷ v ∷ more) s =
    λ e. absurd (append-ne-nil_right s.field_errors _ e)
inject_kind-AcceptsIfClean media_multi field ups s =
    λ e. inserted-Accepts media_multi field ups (multi_value field ups s) s refl e

inject-cons :
    (ui : Raw) (files : Map (List Upload)) (field : String) (fields : List String) (s t : Injected)
    → inject ui files (field ∷ fields) s ≡ some t
    → (n : Injected) × ((inject_kind
            (media_field_kind ui field)
            field
            (or_nil (lookup field files))
            s
          ≡ some n)
        × (inject ui files fields n ≡ some t))
unfolding inject
inject-cons ui files field fields s t h =
    elim (Option-cases
      (inject_kind (media_field_kind ui field) field (or_nil (lookup field files)) s)) [
        | inl lost ↦ absurd (ground arith)
        | inr (n, found) ↦ (n, (found, (rw (found, inject) at h)))
      ]

-- The first step of a loop that reports no error.
inject-first :
    (ui : Raw) (files : Map (List Upload)) (field : String) (fields : List String) (s t : Injected)
    → inject ui files (field ∷ fields) s ≡ some t
    → ((n : Injected) → inject ui files fields n ≡ some t → n.field_errors ≡ [])
    → (n : Injected) × (Accepts (media_field_kind ui field) field (or_nil (lookup field files)) s n
        × (inject ui files fields n ≡ some t))
inject-first ui files field fields s t h clean =
    let (n, step_rest) = inject-cons ui files field fields s t h in
    let (step, rest) = step_rest in
    (
      n,
      (
        subst (AcceptsIfClean (media_field_kind ui field) field (or_nil (lookup field files)) s)
            step
            (inject_kind-AcceptsIfClean (media_field_kind ui field) field
              (or_nil (lookup field files)) s)
            (clean n rest),
        rest,
      ),
    )

abbrev NoErrors : Option Injected → Type 0
NoErrors none = Unit
NoErrors (some s) = s.field_errors ≡ []

inject-clean :
    (ui : Raw) (files : Map (List Upload)) (fields : List String) (s t : Injected)
    → inject ui files fields s ≡ some t
    → t.field_errors ≡ []
    → s.field_errors ≡ []
unfolding inject
inject-clean ui files [] s t h e = subst (λ (o : Option Injected). NoErrors o) (sym h) e
inject-clean ui files (field ∷ fields) s t h e =
    let (n, accepts_rest) =
      inject-first ui files field fields s t h λ n r. inject-clean ui files fields n t r e in
    accepts_rest.0.before

abbrev HasValue : String → Option Value → Option Injected → Type 0
HasValue k v none = Unit
HasValue k v (some t) = lookup k t.payload ≡ v

inject-others :
    (ui : Raw) (files : Map (List Upload)) (fields : List String) (s t : Injected) (k : String)
    → inject ui files fields s ≡ some t
    → t.field_errors ≡ []
    → mem_text k fields ≡ false
    → lookup k t.payload ≡ lookup k s.payload
unfolding inject
inject-others ui files [] s t k h e m = subst (HasValue k (lookup k s.payload)) h refl
inject-others ui files (field ∷ fields) s t k h e m =
    let (n, accepts_rest) =
      inject-first ui files field fields s t h λ n r. inject-clean ui files fields n t r e in
    inject-others ui files fields n t k accepts_rest.1 e (ground arith)
    ∙ accepts_rest.0.others k (λ p. ground (arith, eq_iff field k))

-- If the loop over distinct file fields reports no error, then no file is lost and nothing else is
-- touched: each of these fields has accepted its files, the only one of a single field, or those of
-- a multi field in their order behind the submitted items, and every other key has its value.
pub inject-IsAccepted :
    (ui : Raw) (files : Map (List Upload)) (fields : List String) (s t : Injected) (k : String)
    → AreApart fields
    → inject ui files fields s ≡ some t
    → t.field_errors ≡ []
    → if mem_text k fields
      then IsAccepted
          (media_field_kind ui k)
          (or_nil (lookup k files))
          (lookup k s.payload)
          (lookup k t.payload)
      else (lookup k t.payload ≡ lookup k s.payload)
inject-IsAccepted ui files [] s t k a h e = inject-others ui files [] s t k h e refl
inject-IsAccepted ui files (field ∷ fields) s t k (apart, a) h e =
    let (n, accepts_rest) =
      inject-first ui files field fields s t h λ n r. inject-clean ui files fields n t r e in
    let (accepts, rest) = accepts_rest in
    elim (Bool-cases (field == k)) [
      | inl same ↦ rw same (
          subst IsAcceptedAt ((eq_iff field k).0 same) (
            subst
              (IsAccepted (media_field_kind ui field) (or_nil (lookup field files))
                (lookup field s.payload))
              (sym (inject-others ui files fields n t field rest e apart)) accepts.accepted))
      | inr other ↦ rw other (
          subst KeepsFrom (accepts.others k (λ p. ground (arith, eq_iff field k)))
            (inject-IsAccepted ui files fields n t k a rest e))
    ]
  where
    IsAcceptedAt : String → Type 0
    IsAcceptedAt j =
        IsAccepted (media_field_kind ui j) (or_nil (lookup j files)) (lookup j s.payload)
          (lookup j t.payload)

    KeepsFrom : Option Value → Type 0
    KeepsFrom old =
        if mem_text k fields
        then IsAccepted (media_field_kind ui k) (or_nil (lookup k files)) old (lookup k t.payload)
        else (lookup k t.payload ≡ old)
