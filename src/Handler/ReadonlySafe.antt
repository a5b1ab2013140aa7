-- ===== src/Handler/ReadonlySafe.antt =====
-- `Save` never sees a read-only key: neither a submitted value nor an uploaded file gets through.
use editrig_go.Base.{
  ◌≡◌, refl, ap, subst, ◌∙◌, Option, none, some, arith, List, [], ◌∷◌, String, eq_iff, Option-cases,
  inl, inr,
}
use editrig_go.Map.{Map, lookup, keys}
use editrig_go.Map.Laws.{lookup-insert}
use editrig_go.Json.{Value, Data, Raw, doc, Upload, or_nil}
use editrig_go.Text.Sort.{sort_strings}
use editrig_go.Validate.{FieldError}
use editrig_go.Validate.Media.{
  MediaKind, media_none, media_single, media_multi, media_field_kind, raw_kind, entry_kind,
}
use editrig_go.Validate.Readonly.{strip_readonly, is_readonly_entry}
use editrig_go.Validate.Readonly.Strip.{IsReadonly, lookup-strip_readonly}
use editrig_go.Validate.Unknown.Policy.{lookup-unknown_fields}
use editrig_go.Validate.Structural.{SchemaEngine}
use editrig_go.Errors.{Catalog}
use editrig_go.Entity.{Entity, Hook, SchemaResult, ValidateResult}
use editrig_go.Http.{
  World, Step, go, answer, panic, Exec, continue, pure, reply, reply_error, crash, call, ◌>>=◌,
}
use editrig_go.Handler.{run_schema, schema_or_500}
use editrig_go.Handler.Write.{
  Injected, inject_kind, multi_value, inject, refuse_errors, unknown_checked, injected_checked,
  run_validate, call_validate, checked_payload,
}

-- A read-only field accepts no file.
media_field_kind_readonly :
    (ui : Raw) (k : String) → IsReadonly ui k → media_field_kind ui k ≡ media_none
unfolding media_field_kind raw_kind entry_kind is_readonly_entry
media_field_kind_readonly (doc v) k (entries, raw, u, l, r, p) = ground arith
media_field_kind_readonly ui k (entries, raw, u, l, r, p) = cc

lookup-inject_kind :
    (kind : MediaKind) (field k : String) (ups : List Upload) (s t : Injected)
    → (field ≡ k → kind ≡ media_none)
    → lookup k s.payload ≡ none
    → inject_kind kind field ups s ≡ some t
    → lookup k t.payload ≡ none
unfolding inject_kind
lookup-inject_kind media_none field k ups s t f h e = ground arith
lookup-inject_kind media_single field k [] s t f h e = cc
lookup-inject_kind media_single field k (up ∷ []) s t f h e =
    ground (arith, lookup-insert field k (Value.upload up) s.payload, eq_iff field k)
lookup-inject_kind media_single field k (up ∷ (up' ∷ more)) s t f h e = ground arith
lookup-inject_kind media_multi field k ups s t f h e =
    ground (arith, lookup-insert field k (multi_value field ups s) s.payload, eq_iff field k)

lookup-inject :
    (ui : Raw) (files : Map (List Upload)) (fields : List String) (k : String) (s t : Injected)
    → IsReadonly ui k
    → lookup k s.payload ≡ none
    → inject ui files fields s ≡ some t
    → lookup k t.payload ≡ none
unfolding inject
lookup-inject ui files [] k s t r h e = ground arith
lookup-inject ui files (field ∷ fields) k s t r h e =
    elim (Option-cases
      (inject_kind (media_field_kind ui field) field (or_nil (lookup field files)) s)) [
        | inl lost ↦ ground arith
        | inr (next, went) ↦
            lookup-inject ui files fields k next t r
              (lookup-inject_kind (media_field_kind ui field) field k (or_nil (lookup field files))
                s next (λ same. ap (media_field_kind ui) same ∙ media_field_kind_readonly ui k r) h
                went)
              (ground arith)
      ]

module _ {S : Type 0} where
  -- The inversion of a step that went on.
  continue-eq-go :
      {A B : Type 0} (r : Step A) (k : A → Exec S B) (w : World S) {b : B}
      → (continue r k w).0 ≡ go b
      → (a : A) × (r ≡ go a) × ((k a w).0 ≡ go b)
  unfolding continue
  continue-eq-go (go a) k w h = (a, refl, h)
  continue-eq-go (answer resp) k w h = cc
  continue-eq-go panic k w h = cc

  bind-eq-go :
      {A B : Type 0} (m : Exec S A) (k : A → Exec S B) (w : World S) {b : B}
      → ((m >>= k) w).0 ≡ go b
      → (a : A) × ((m w).0 ≡ go a) × ((k a (m w).1).0 ≡ go b)
  unfolding ◌>>=◌
  bind-eq-go m k w h = continue-eq-go (m w).0 k (m w).1 h

  -- `Validate` puts no key into the payload that was not there.
  abbrev pub ValidateAddsNoKey : Entity S → Type 0
  ValidateAddsNoKey e =
      (hook : Catalog → Option String → Data → Hook S ValidateResult)
      → e.validate ≡ some hook
      → (cat : Catalog) (id : Option String) (input : Data) (s : S) (k : String)
      → lookup k input ≡ none
      → lookup k (hook cat id input s).0.payload ≡ none

  lookup-call_validate :
      (o : Option (Catalog → Option String → Data → Hook S ValidateResult)) (cat : Catalog)
      (id : Option String) (s t : Injected) (w : World S) (k : String)
      → ((hook : Catalog → Option String → Data → Hook S ValidateResult)
          → o ≡ some hook
          → (cat : Catalog) (id : Option String) (input : Data) (s : S) (k : String)
          → lookup k input ≡ none
          → lookup k (hook cat id input s).0.payload ≡ none)
      → lookup k s.payload ≡ none
      → (call_validate o cat id s w).0 ≡ go t
      → lookup k t.payload ≡ none
  unfolding pure call continue ◌>>=◌
  lookup-call_validate none cat id s t w k v h e = ground arith
  lookup-call_validate (some hook) cat id s t w k v h e =
      ground (arith, v hook refl cat id s.payload w.store k h)

  unknown_checked-go :
      (o : Option (List FieldError × Data)) (w : World S) (known : Data)
      → (unknown_checked o w).0 ≡ go known
      → (fe : List FieldError) × (o ≡ some (fe, known))
  unfolding refuse_errors reply_error reply pure continue ◌>>=◌
  unknown_checked-go none w known e = cc
  unknown_checked-go (some (fe, left)) w known e = (fe, ground arith)

  injected_checked-go :
      (o : Option Injected) (w : World S) (s : Injected)
      → (injected_checked o w).0 ≡ go s
      → o ≡ some s
  unfolding pure crash
  injected_checked-go none w s e = cc
  injected_checked-go (some t) w s e = ground arith

  refuse_errors-go :
      (fe : List FieldError) (ready result : Data) (w : World S)
      → ((refuse_errors fe >>= λ _. pure ready) w).0 ≡ go result
      → ready ≡ result
  unfolding refuse_errors reply pure continue ◌>>=◌
  refuse_errors-go fe ready result w e = ground arith

  schema_or_500-go :
      (e : Entity S) (cat : Catalog) (row : Option Data) (w : World S) (s : SchemaResult)
      → (schema_or_500 e cat row w).0 ≡ go s
      → (run_schema e cat row w).0 ≡ go s
  unfolding schema_or_500 reply_error reply pure
  schema_or_500-go e cat row w s h =
      let (a, ran, rest) = bind-eq-go (run_schema e cat row) _ w h in ran ∙ ap go (ground arith)

  -- When the checks let a payload through to `Save`, the entity's `Schema` hook has returned a
  -- schema for this request, and the payload has no key that its uiSchema declares read-only,
  -- whatever was submitted and uploaded, provided that `Validate` adds no key.
  pub lookup-checked_payload :
      (engine : SchemaEngine) (policy : String) (e : Entity S) (cat : Catalog) (id : Option String)
      (current : Option Data) (input : Data) (files : Map (List Upload)) (w : World S)
      (ready : Data)
      → ValidateAddsNoKey e
      → (checked_payload engine policy e cat id current input files w).0 ≡ go ready
      → (s : SchemaResult) × ((run_schema e cat current w).0 ≡ go s)
        × ((k : String) → IsReadonly s.ui_schema k → lookup k ready ≡ none)
  unfolding checked_payload run_validate
  lookup-checked_payload engine policy e cat id current input files w ready v h =
      let (s, e1, h1) = bind-eq-go _ _ w h in
      let (known, e2, h2) = bind-eq-go _ _ _ h1 in
      let (fe, e3, h3) = bind-eq-go _ _ _ h2 in
      let (injected, e4, h4) = bind-eq-go _ _ _ h3 in
      let (checked, e5, h5) = bind-eq-go _ _ _ h4 in
      let (ue, unknown) = unknown_checked-go _ _ known e2 in
      (
        s,
        schema_or_500-go e cat current w s e1,
        λ k r.
            subst (λ (d : Data). lookup k d ≡ none)
              (refuse_errors-go checked.field_errors checked.payload ready _ h5)
              (lookup-call_validate e.validate cat id injected checked _ k v
                (lookup-inject s.ui_schema files (sort_strings (keys files)) k _ injected r
                  (lookup-unknown_fields s.schema (strip_readonly s.ui_schema input).1 known policy
                    k ue unknown (lookup-strip_readonly s.ui_schema k input r))
                  (injected_checked-go _ _ injected e4))
                e5),
      )
