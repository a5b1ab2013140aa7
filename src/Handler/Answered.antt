-- ===== src/Handler/Answered.antt =====
-- Every create and every update is answered: with the entities of a built registry and the settings
-- that the options can build, nothing panics and nothing falls through.
use editrig_go.Base.{◌≡◌, Bool, Option, none, some, List, String, is_some}
use editrig_go.Map.{Map, keys}
use editrig_go.Json.{Data, Upload}
use editrig_go.Text.Sort.{sort_strings}
use editrig_go.Text.Sort.Laws.{All-sort_strings}
use editrig_go.Validate.Structural.{SchemaEngine}
use editrig_go.Errors.{Catalog, error_text}
use editrig_go.Config.Laws.{IsConfigured}
use editrig_go.Entity.{Entity, Hook, SaveResult}
use editrig_go.Registry.{get, built, new_registry}
use editrig_go.Registry.Laws.{IsServable, get-new_registry}
use editrig_go.Http.{World, answer, Response, Request}
use editrig_go.Http.Rules.{
  Ensures, Ensures-pure, Ensures-reply, Ensures-reply_error, Ensures-call, Ensures-if, Ensures-bind,
  Ensures-with_cleanup, Ensures-answer,
}
use editrig_go.Upload.{Decoded, rejected, decoded, or_empty}
use editrig_go.Upload.Laws.FilePresence.{HasFiles, DecodedOk, decode_body-DecodedOk}
use editrig_go.Handler.{
  Handler, entity_of, run_schema, run_load, schema_or_500, load_or_500, load_or_404,
}
use editrig_go.Handler.Write.{
  is_disabled, run_validate, save_checked, answer_saved, saved_id, checked_payload, write_decoded,
  current_row, body_checked, write_hook, write,
}
use editrig_go.Handler.Total.{
  Any, Never, inject-ne-none, keys-have-files, Ensures-refuse_errors, Ensures-unknown_checked,
  Ensures-structural_checked, Ensures-injected_checked, Ensures-call_schema, Ensures-call_load,
  Ensures-call_validate, Ensures-or_reply, Ensures-save_failure,
}

module _ {S : Type 0} (e : Entity S) (servable : IsServable e) where
  Ensures-schema_or_500 :
      (cat : Catalog) (row : Option Data) → Ensures Any (schema_or_500 e cat row)
  unfolding schema_or_500 run_schema
  Ensures-schema_or_500 cat row =
      Ensures-bind Any Any _ _ (Ensures-call_schema e.schema cat row servable.1) (λ s _.
        Ensures-if Any (is_some s.failure) _ _ (Ensures-reply_error Any 500 "schema")
          (Ensures-pure Any s tt))

  Ensures-load_or_500 : (id : String) → Ensures Any (load_or_500 e id)
  unfolding load_or_500 run_load
  Ensures-load_or_500 id = Ensures-bind Any Any _ _ (Ensures-call_load e.load id servable.2) (λ l _.
      Ensures-if Any (is_some l.failure) _ _ (Ensures-reply_error Any 500 "load")
        (Ensures-pure Any l.row tt))

  Ensures-load_or_404 : (id : String) → Ensures Any (load_or_404 e id)
  unfolding load_or_404
  Ensures-load_or_404 id =
      Ensures-bind Any Any _ _ (Ensures-load_or_500 id)
        (λ row _. Ensures-or_reply Any 404 "not found" row (λ _ _. tt))

  Ensures-current_row : (id : Option String) → Ensures Any (current_row e id)
  unfolding current_row
  Ensures-current_row none = Ensures-pure Any none tt
  Ensures-current_row (some id) =
      Ensures-bind Any Any _ _ (Ensures-load_or_404 id) (λ row _. Ensures-pure Any (some row) tt)

  Ensures-answer_saved :
      (cat : Catalog) (is_update : Bool) (id : String)
      → Ensures Never (answer_saved e cat is_update id)
  unfolding answer_saved
  Ensures-answer_saved cat is_update id =
      Ensures-bind Any Never _ _ (Ensures-load_or_500 id) λ row _.
        Ensures-bind Any Never _ _ (Ensures-schema_or_500 cat row) λ s _. Ensures-reply Never _ _

  Ensures-save_checked : (saved : SaveResult) → Ensures {S = S} Any (save_checked saved)
  unfolding save_checked
  Ensures-save_checked saved =
      Ensures-bind Any Any _ _ (Ensures-refuse_errors saved.field_errors)
        (λ _ _. Ensures-save_failure saved.out_id saved.failure)

  module _ (engine : SchemaEngine) (policy : String) (cat : Catalog) (id : Option String)
      (current : Option Data) where
    Ensures-checked_payload :
        (input : Data) (files : Map (List Upload))
        → HasFiles files
        → Ensures Any (checked_payload engine policy e cat id current input files)
    unfolding checked_payload run_validate
    Ensures-checked_payload input files a =
        Ensures-bind Any Any _ _ (Ensures-schema_or_500 cat current) λ s _.
          Ensures-bind Any Any _ _ (Ensures-unknown_checked _) λ known _.
            Ensures-bind Any Any _ _ (Ensures-structural_checked _) λ fe _.
              Ensures-bind Any Any _ _
                (Ensures-injected_checked _ (
                  inject-ne-none s.ui_schema files (sort_strings (keys files)) _
                    (All-sort_strings _ (keys files) (keys-have-files files a))))
                λ injected _.
                  Ensures-bind Any Any _ _ (Ensures-call_validate e.validate cat id injected)
                    λ ready _.
                      Ensures-bind Any Any _ _ (Ensures-refuse_errors ready.field_errors)
                        (λ _ _. Ensures-pure Any ready.payload tt)

    Ensures-body_checked :
        (save : Option String → Data → Hook S SaveResult) (d : Decoded)
        → DecodedOk d
        → Ensures Never (body_checked engine policy e save cat id current d)
    unfolding write_decoded
    Ensures-body_checked save (rejected status f) a =
        Ensures-reply_error Never status (error_text f)
    Ensures-body_checked save (decoded input files held) a = Ensures-with_cleanup Never held _ (
        Ensures-bind Any Never _ _ (Ensures-checked_payload (or_empty input) files a) λ ready _.
          Ensures-bind Any Never _ _ (Ensures-call Any (save id ready) (λ _. tt)) λ saved _.
            Ensures-bind Any Never _ _ (Ensures-save_checked saved)
              λ out_id _. Ensures-answer_saved cat (is_some id) (saved_id id out_id))

module _ (engine : SchemaEngine) {S : Type 0} (h : Handler S) (r : Request)
    (configured : IsConfigured h.settings) where
  Ensures-write_hook :
      (e : Entity S) (id : Option String) (o : Option (Option String → Data → Hook S SaveResult))
      → IsServable e
      → Ensures Never (write_hook engine h r e id o)
  Ensures-write_hook e id none a = Ensures-reply_error Never 405 "method not allowed"
  Ensures-write_hook e id (some save) a =
      Ensures-if Never (is_disabled e (is_some id)) _ _
        (Ensures-reply_error Never 405 "method not allowed")
        (Ensures-bind Any Never _ _ (Ensures-current_row e a id) λ current _.
          Ensures-bind DecodedOk Never _ _
            (decode_body-DecodedOk r h.settings.body_limits configured.limited)
            (Ensures-body_checked e a engine h.settings.unknown_fields (h.copy r e.name) id current
              save))

  -- With positive limits and the entities of a built registry, every create and every update, of any
  -- name, request and state, ends with an answer and does not panic.
  pub write_answers :
      (es : List (Entity S)) (name : String) (id : Option String) (w : World S)
      → new_registry es ≡ built h.reg
      → (resp : Response) × ((write engine h r name id w).0 ≡ answer resp)
  unfolding write entity_of
  write_answers es name id w b =
      Ensures-answer _
        (Ensures-bind IsServable Never _ _
          (Ensures-or_reply IsServable 400 "unknown entity" (get h.reg name)
            (λ e found. ((get-new_registry es h.reg name b).1 e found).0))
          (λ e a. Ensures-write_hook e id e.save a))
        w
