-- ===== src/Handler/Total.antt =====
-- The steps of the write path that do not depend on the entity do not panic.
use editrig_go.Base.{
  ℕ, ◌≡◌, ◌≢◌, refl, sym, ◌∙◌, true, Option, none, some, arith, List, [], ◌∷◌, String, ◌==◌,
  eq_refl, Bool-cases, Option-cases, inl, inr, is_some, is_empty, All, mem_text,
}
use editrig_go.Map.{Map, lookup, keys, has}
use editrig_go.Map.Laws.{mem_text-keys}
use editrig_go.Json.{Data, Raw, Upload, or_nil}
use editrig_go.Validate.{FieldError}
use editrig_go.Validate.Media.{MediaKind, media_single, media_field_kind}
use editrig_go.Validate.Widen.{Checked, ok, failed, exhausted}
use editrig_go.Errors.{Catalog, Failure, is_not_found}
use editrig_go.Entity.{Hook, SchemaResult, LoadResult, ValidateResult}
use editrig_go.Http.{or_reply}
use editrig_go.Http.Rules.{
  Ensures, Ensures-pure, Ensures-reply, Ensures-reply_error, Ensures-call, Ensures-if, Ensures-bind,
}
use editrig_go.Upload.Laws.FilePresence.{HasFiles}
use editrig_go.Handler.{call_schema, call_load}
use editrig_go.Handler.Write.{
  Injected, inject_kind, inject, refuse_errors, unknown_checked, structural_checked,
  injected_checked, call_validate, save_failure,
}

-- Any value.
abbrev pub Any : {A : Type 0} → A → Type 0
Any a = Unit

-- No value: the step ends with an answer.
abbrev pub Never : {A : Type 0} → A → Type 0
Never a = ⊥

HasFiles-lookup :
    (field : String) (m : Map (List Upload))
    → HasFiles m
    → has field m ≡ true
    → or_nil (lookup field m) ≢ []
unfolding lookup
HasFiles-lookup field [] a h = cc
HasFiles-lookup field ((k, v) ∷ m) (b, a) h = elim (Bool-cases (k == field)) [
  | inl e ↦ rw e b
  | inr e ↦ rw e (HasFiles-lookup field m a (ground arith))
]

inject_kind-ne-none :
    (kind : MediaKind) (field : String) (ups : List Upload) (s : Injected)
    → ups ≢ []
    → inject_kind kind field ups s ≢ none
unfolding inject_kind
inject_kind-ne-none media_single field [] s h = absurd (h refl)
inject_kind-ne-none media_single field (up ∷ []) s h = cc
inject_kind-ne-none _ field ups s h = ground arith

pub inject-ne-none :
    (ui : Raw) (files : Map (List Upload)) (fields : List String) (s : Injected)
    → All (λ field. or_nil (lookup field files) ≢ []) fields
    → inject ui files fields s ≢ none
unfolding inject
inject-ne-none ui files [] s a = cc
inject-ne-none ui files (field ∷ fields) s (h, a) =
    elim (Option-cases
      (inject_kind (media_field_kind ui field) field (or_nil (lookup field files)) s)) [
        | inl lost ↦ absurd (
            inject_kind-ne-none (media_field_kind ui field) field (or_nil (lookup field files)) s h
              lost)
        | inr (next, went) ↦ λ e. inject-ne-none ui files fields next a (ground arith)
      ]

All-of_mem :
    (P : String → Type 0) (ks : List String)
    → ((k : String) → mem_text k ks ≡ true → P k)
    → All P ks
All-of_mem P [] h = tt
All-of_mem P (k ∷ ks) h =
    (h k (ground (arith, eq_refl k)), All-of_mem P ks (λ j m. h j (ground arith)))

pub keys-have-files :
    (m : Map (List Upload)) → HasFiles m → All (λ field. or_nil (lookup field m) ≢ []) (keys m)
keys-have-files m a =
    All-of_mem _ (keys m) (λ k h. HasFiles-lookup k m a (sym (mem_text-keys k m) ∙ h))

module _ {S : Type 0} where
  pub Ensures-refuse_errors : (fe : List FieldError) → Ensures {S = S} Any (refuse_errors fe)
  unfolding refuse_errors
  Ensures-refuse_errors fe =
      Ensures-if Any (is_empty fe) _ _ (Ensures-pure Any tt tt) (Ensures-reply Any 422 _)

  pub Ensures-unknown_checked :
      (o : Option (List FieldError × Data)) → Ensures {S = S} Any (unknown_checked o)
  Ensures-unknown_checked none = Ensures-reply_error Any 500 "schema"
  Ensures-unknown_checked (some (fe, input)) =
      Ensures-bind Any Any _ _ (Ensures-refuse_errors fe) (λ _ _. Ensures-pure Any input tt)

  pub Ensures-structural_checked :
      (c : Checked (List FieldError)) → Ensures {S = S} Any (structural_checked c)
  Ensures-structural_checked (ok fe) = Ensures-pure Any fe tt
  Ensures-structural_checked failed = Ensures-reply_error Any 500 "schema"
  Ensures-structural_checked exhausted = Ensures-reply_error Any 500 "schema"

  pub Ensures-injected_checked :
      (o : Option Injected) → o ≢ none → Ensures {S = S} Any (injected_checked o)
  Ensures-injected_checked none h = absurd (h refl)
  Ensures-injected_checked (some s) h = Ensures-pure Any s tt

  pub Ensures-call_schema :
      (o : Option (Catalog → Option Data → Hook S SchemaResult)) (cat : Catalog) (row : Option Data)
      → is_some o ≡ true
      → Ensures Any (call_schema o cat row)
  Ensures-call_schema none cat row h = cc
  Ensures-call_schema (some hook) cat row h = Ensures-call Any (hook cat row) (λ _. tt)

  pub Ensures-call_load :
      (o : Option (String → Hook S LoadResult)) (id : String)
      → is_some o ≡ true
      → Ensures Any (call_load o id)
  Ensures-call_load none id h = cc
  Ensures-call_load (some hook) id h = Ensures-call Any (hook id) (λ _. tt)

  pub Ensures-call_validate :
      (o : Option (Catalog → Option String → Data → Hook S ValidateResult)) (cat : Catalog)
      (id : Option String) (s : Injected)
      → Ensures Any (call_validate o cat id s)
  Ensures-call_validate none cat id s = Ensures-pure Any s tt
  Ensures-call_validate (some hook) cat id s =
      Ensures-bind Any Any _ _ (Ensures-call Any (hook cat id s.payload) (λ _. tt))
        (λ v _. Ensures-pure Any _ tt)

  pub Ensures-or_reply :
      {A : Type 0} (P : A → Type 0) (status : ℕ) (text : String) (o : Option A)
      → ((a : A) → o ≡ some a → P a)
      → Ensures {S = S} P (or_reply status text o)
  Ensures-or_reply P status text none h = Ensures-reply_error P status text
  Ensures-or_reply P status text (some a) h = Ensures-pure P a (h a refl)

  pub Ensures-save_failure :
      (out_id : String) (o : Option Failure) → Ensures {S = S} Any (save_failure out_id o)
  Ensures-save_failure out_id none = Ensures-pure Any out_id tt
  Ensures-save_failure out_id (some f) =
      Ensures-if Any (is_not_found f) _ _ (Ensures-reply_error Any 404 "not found")
        (Ensures-reply_error Any 500 "save")
