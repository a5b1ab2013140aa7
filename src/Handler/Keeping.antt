-- ===== src/Handler/Keeping.antt =====
-- What the steps before `Save` keep: a part `f` of the world that the entity's `Schema`, `Load` and
-- `Validate` hooks keep.
use editrig_go.Base.{ℕ, ◌≡◌, refl, Bool, Option, none, some, List, String, is_some, is_empty}
use editrig_go.Map.{Map}
use editrig_go.Json.{Data, Upload}
use editrig_go.Validate.{FieldError}
use editrig_go.Validate.Structural.{SchemaEngine}
use editrig_go.Validate.Widen.{Checked, ok, failed, exhausted}
use editrig_go.Errors.{Catalog, Failure, is_not_found}
use editrig_go.Entity.{Entity, Hook, SchemaResult, LoadResult, ValidateResult, SaveResult}
use editrig_go.Registry.{get}
use editrig_go.Http.{World, call, or_reply}
use editrig_go.Http.Rules.{
  Keeps, Keeps-pure, Keeps-reply, Keeps-reply_error, Keeps-crash, Keeps-if, Keeps-bind,
}
use editrig_go.Handler.{
  Handler, entity_of, run_schema, run_load, schema_or_500, load_or_500, load_or_404, call_schema,
  call_load,
}
use editrig_go.Handler.Write.{
  Injected, refuse_errors, unknown_checked, structural_checked, injected_checked, run_validate,
  call_validate, checked_payload, current_row, save_failure, save_checked, answer_saved,
}

-- The reading hooks of `e` keep `f` of the world.
pub record HooksKeep {S X : Type 0} (f : World S → X) (e : Entity S) : Type 0 where
  pub schema :
      (hook : Catalog → Option Data → Hook S SchemaResult)
      → e.schema ≡ some hook
      → (cat : Catalog) (row : Option Data) → Keeps f (call (hook cat row))
  pub load :
      (hook : String → Hook S LoadResult)
      → e.load ≡ some hook
      → (id : String) → Keeps f (call (hook id))
  pub validate :
      (hook : Catalog → Option String → Data → Hook S ValidateResult)
      → e.validate ≡ some hook
      → (cat : Catalog) (id : Option String) (input : Data) → Keeps f (call (hook cat id input))

module _ {S X : Type 0} {f : World S → X} where
  pub Keeps-or_reply :
      {A : Type 0} (status : ℕ) (text : String) (o : Option A) → Keeps f (or_reply status text o)
  Keeps-or_reply status text none = Keeps-reply_error status text
  Keeps-or_reply status text (some a) = Keeps-pure a

  pub Keeps-entity_of : (h : Handler S) (name : String) → Keeps f (entity_of h name)
  unfolding entity_of
  Keeps-entity_of h name = Keeps-or_reply 400 "unknown entity" (get h.reg name)

  pub Keeps-refuse_errors : (fe : List FieldError) → Keeps f (refuse_errors fe)
  unfolding refuse_errors
  Keeps-refuse_errors fe = Keeps-if (is_empty fe) _ _ (Keeps-pure tt) (Keeps-reply 422 _)

  Keeps-unknown_checked : (o : Option (List FieldError × Data)) → Keeps f (unknown_checked o)
  Keeps-unknown_checked none = Keeps-reply_error 500 "schema"
  Keeps-unknown_checked (some (fe, input)) =
      Keeps-bind _ _ (Keeps-refuse_errors fe) (λ _. Keeps-pure input)

  Keeps-structural_checked : (c : Checked (List FieldError)) → Keeps f (structural_checked c)
  Keeps-structural_checked (ok fe) = Keeps-pure fe
  Keeps-structural_checked failed = Keeps-reply_error 500 "schema"
  Keeps-structural_checked exhausted = Keeps-reply_error 500 "schema"

  Keeps-injected_checked : (o : Option Injected) → Keeps f (injected_checked o)
  Keeps-injected_checked none = Keeps-crash
  Keeps-injected_checked (some s) = Keeps-pure s

  Keeps-save_failure : (out_id : String) (o : Option Failure) → Keeps f (save_failure out_id o)
  Keeps-save_failure out_id none = Keeps-pure out_id
  Keeps-save_failure out_id (some why) =
      Keeps-if (is_not_found why) _ _ (Keeps-reply_error 404 "not found")
        (Keeps-reply_error 500 "save")

  pub Keeps-save_checked : (saved : SaveResult) → Keeps f (save_checked saved)
  unfolding save_checked
  Keeps-save_checked saved =
      Keeps-bind _ _ (Keeps-refuse_errors saved.field_errors)
        (λ _. Keeps-save_failure saved.out_id saved.failure)

  module _ (e : Entity S) (hooks : HooksKeep f e) where
    Keeps-call_schema :
        (o : Option (Catalog → Option Data → Hook S SchemaResult)) (cat : Catalog)
        (row : Option Data)
        → e.schema ≡ o
        → Keeps f (call_schema o cat row)
    Keeps-call_schema none cat row p = Keeps-crash
    Keeps-call_schema (some hook) cat row p = hooks.schema hook p cat row

    Keeps-call_load :
        (o : Option (String → Hook S LoadResult)) (id : String)
        → e.load ≡ o
        → Keeps f (call_load o id)
    Keeps-call_load none id p = Keeps-crash
    Keeps-call_load (some hook) id p = hooks.load hook p id

    Keeps-run_schema : (cat : Catalog) (row : Option Data) → Keeps f (run_schema e cat row)
    unfolding run_schema
    Keeps-run_schema cat row = Keeps-call_schema e.schema cat row refl

    Keeps-run_load : (id : String) → Keeps f (run_load e id)
    unfolding run_load
    Keeps-run_load id = Keeps-call_load e.load id refl

    pub Keeps-schema_or_500 :
        (cat : Catalog) (row : Option Data) → Keeps f (schema_or_500 e cat row)
    unfolding schema_or_500
    Keeps-schema_or_500 cat row =
        Keeps-bind _ _ (Keeps-run_schema cat row)
          (λ s. Keeps-if (is_some s.failure) _ _ (Keeps-reply_error 500 "schema") (Keeps-pure s))

    pub Keeps-load_or_500 : (id : String) → Keeps f (load_or_500 e id)
    unfolding load_or_500
    Keeps-load_or_500 id =
        Keeps-bind _ _ (Keeps-run_load id)
          (λ l. Keeps-if (is_some l.failure) _ _ (Keeps-reply_error 500 "load") (Keeps-pure l.row))

    pub Keeps-load_or_404 : (id : String) → Keeps f (load_or_404 e id)
    unfolding load_or_404
    Keeps-load_or_404 id =
        Keeps-bind _ _ (Keeps-load_or_500 id) (λ row. Keeps-or_reply 404 "not found" row)

    pub Keeps-current_row : (id : Option String) → Keeps f (current_row e id)
    unfolding current_row
    Keeps-current_row none = Keeps-pure none
    Keeps-current_row (some id) =
        Keeps-bind _ _ (Keeps-load_or_404 id) (λ row. Keeps-pure (some row))

    Keeps-call_validate :
        (o : Option (Catalog → Option String → Data → Hook S ValidateResult)) (cat : Catalog)
        (id : Option String) (s : Injected)
        → e.validate ≡ o
        → Keeps f (call_validate o cat id s)
    Keeps-call_validate none cat id s p = Keeps-pure s
    Keeps-call_validate (some hook) cat id s p =
        Keeps-bind _ _ (hooks.validate hook p cat id s.payload) (λ v. Keeps-pure _)

    Keeps-run_validate :
        (cat : Catalog) (id : Option String) (s : Injected) → Keeps f (run_validate e cat id s)
    unfolding run_validate
    Keeps-run_validate cat id s = Keeps-call_validate e.validate cat id s refl

    pub Keeps-checked_payload :
        (engine : SchemaEngine) (policy : String) (cat : Catalog) (id : Option String)
        (current : Option Data) (input : Data) (files : Map (List Upload))
        → Keeps f (checked_payload engine policy e cat id current input files)
    unfolding checked_payload
    Keeps-checked_payload engine policy cat id current input files =
        Keeps-bind _ _ (Keeps-schema_or_500 cat current) λ s.
          Keeps-bind _ _ (Keeps-unknown_checked _) λ known.
            Keeps-bind _ _ (Keeps-structural_checked _) λ fe.
              Keeps-bind _ _ (Keeps-injected_checked _) λ injected.
                Keeps-bind _ _ (Keeps-run_validate cat id injected) λ ready.
                  Keeps-bind _ _ (Keeps-refuse_errors ready.field_errors)
                    λ _. Keeps-pure ready.payload

    pub Keeps-answer_saved :
        (cat : Catalog) (is_update : Bool) (id : String) → Keeps f (answer_saved e cat is_update id)
    unfolding answer_saved
    Keeps-answer_saved cat is_update id =
        Keeps-bind _ _ (Keeps-load_or_500 id)
          λ row. Keeps-bind _ _ (Keeps-schema_or_500 cat row) λ s. Keeps-reply _ _
