-- ===== src/Handler/Cleanup.antt =====
-- No request leaves temporary files of a multipart form behind.
use editrig_go.Base.{
  ℕ, ◌+◌, ◌≡◌, ◌∙◌, true, false, Option, none, some, arith, List, String, is_some,
}
use editrig_go.Map.{Map}
use editrig_go.Json.{Data, Upload}
use editrig_go.Validate.Structural.{SchemaEngine}
use editrig_go.Errors.{Catalog, error_text}
use editrig_go.Entity.{Entity, Hook, SaveResult}
use editrig_go.Http.{
  Step, go, answer, panic, World, Request, continue, with_cleanup, reply_error, ◌>>=◌,
}
use editrig_go.Http.Rules.{Keeps, Keeps-reply_error, Keeps-if, Keeps-bind, Keeps-open_forms-call}
use editrig_go.Upload.{Decoded, rejected, decoded, or_empty, decode_body}
use editrig_go.Config.{defaults}
use editrig_go.Upload.Laws.{left, lost_under-parsed, open_forms-decode_body}
use editrig_go.Handler.{Handler}
use editrig_go.Handler.Write.{is_disabled, saved_id, write_decoded, body_checked, write_hook, write}
use editrig_go.Handler.Keeping.{
  HooksKeep, Keeps-entity_of, Keeps-current_row, Keeps-checked_payload, Keeps-save_checked,
  Keeps-answer_saved,
}

abbrev forms : {S : Type 0} → World S → ℕ
forms w = w.open_forms

HooksKeep-forms : {S : Type 0} (e : Entity S) → HooksKeep forms e
HooksKeep-forms e = record {
  schema = λ hook p cat row. Keeps-open_forms-call (hook cat row);
  load = λ hook p id. Keeps-open_forms-call (hook id);
  validate = λ hook p cat id input. Keeps-open_forms-call (hook cat id input);
}

module _ {S : Type 0} where
  module _ (engine : SchemaEngine) (policy : String) (e : Entity S)
      (save : Option String → Data → Hook S SaveResult) (cat : Catalog) (id : Option String)
      (current : Option Data) where
    Keeps-write_decoded :
        (input : Data) (files : Map (List Upload))
        → Keeps forms (write_decoded engine policy e save cat id current input files)
    unfolding write_decoded
    Keeps-write_decoded input files =
        Keeps-bind _ _
          (Keeps-checked_payload e (HooksKeep-forms e) engine policy cat id current input files)
          λ ready. Keeps-bind _ _ (Keeps-open_forms-call (save id ready)) λ saved.
            Keeps-bind _ _ (Keeps-save_checked saved) λ out_id.
              Keeps-answer_saved e (HooksKeep-forms e) cat (is_some id) (saved_id id out_id)

    -- The deferred cleanup takes back what the body has left.
    continue-forms :
        (n : ℕ) (d : Step Decoded) (w : World S)
        → forms w ≡ n + left d
        → forms (continue d (body_checked engine policy e save cat id current) w).1 ≡ n
    unfolding continue with_cleanup
    continue-forms n (go (rejected status f)) w h =
        let k : Keeps {S = S} forms (reply_error {A = Unit {0}} status (error_text f)) =
          Keeps-reply_error status (error_text f) in
        k.at w ∙ omega (arith, h)
    continue-forms n (go (decoded input files true)) w h =
        omega (arith, h, (Keeps-write_decoded (or_empty input) files).at w)
    continue-forms n (go (decoded input files false)) w h =
        (Keeps-write_decoded (or_empty input) files).at w ∙ omega (arith, h)
    continue-forms n (answer r) w h = omega (arith, h)
    continue-forms n panic w h = omega (arith, h)

module _ (engine : SchemaEngine) {S : Type 0} (h : Handler S) (r : Request)
    (parsed : r.bad_query ≡ false) where
  Keeps-read_body :
      (e : Entity S) (save : Option String → Data → Hook S SaveResult) (id : Option String)
      (current : Option Data)
      → Keeps forms (
          decode_body r h.settings.body_limits
          >>= body_checked engine h.settings.unknown_fields e save (h.copy r e.name) id current)
  unfolding ◌>>=◌
  Keeps-read_body e save id current = record {
    at = λ w.
        continue-forms engine h.settings.unknown_fields e save (h.copy r e.name) id current
          (forms w) (decode_body r h.settings.body_limits w).0
          (decode_body r h.settings.body_limits w).1
          (open_forms-decode_body r h.settings.body_limits w
            ∙ omega (arith, lost_under-parsed r (defaults h.settings.body_limits) parsed));
  }

  Keeps-write_hook :
      (e : Entity S) (id : Option String) (o : Option (Option String → Data → Hook S SaveResult))
      → Keeps forms (write_hook engine h r e id o)
  Keeps-write_hook e id none = Keeps-reply_error 405 "method not allowed"
  Keeps-write_hook e id (some save) =
      Keeps-if (is_disabled e (is_some id)) _ _ (Keeps-reply_error 405 "method not allowed") (
        Keeps-bind _ _ (Keeps-current_row e (HooksKeep-forms e) id)
          (λ current. Keeps-read_body e save id current))

  -- After a create or an update whose query string is well-formed, on every way out, as many
  -- multipart forms have temporary files on disk as before.
  pub open_forms-write :
      (name : String) (id : Option String) (w : World S)
      → (write engine h r name id w).1.open_forms ≡ w.open_forms
  unfolding write
  open_forms-write name id w =
      (Keeps-bind _ _ (Keeps-entity_of h name) (λ e. Keeps-write_hook e id e.save)).at w
