-- ===== src/Handler/Write.antt =====
-- `write` of handler.go: the shared path of `Create` and `Update`, in the order of the source.
use editrig_go.Base.{
  ℕ, Bool, true, false, not, ◌&&◌, ◌||◌, Option, none, some, List, [], ◌∷◌, ◌++◌, String,
  if◌then◌else◌, is_some, is_empty, map, length,
}
use editrig_go.Text.{◌+++◌}
use editrig_go.Text.Sort.{sort_strings}
use editrig_go.Map.{Map, lookup, insert, keys}
use editrig_go.Json.{Value, arr, upload, Upload, Data, Raw, of_items, as_array, or_nil}
use editrig_go.Validate.{FieldError}
use editrig_go.Validate.Media.{MediaKind, media_none, media_single, media_multi, media_field_kind}
use editrig_go.Validate.Readonly.{strip_readonly}
use editrig_go.Validate.Unknown.{unknown_fields}
use editrig_go.Validate.Structural.{SchemaEngine}
use editrig_go.Validate.Widen.{Checked, ok, failed, exhausted}
use editrig_go.Validate.Write
use editrig_go.Errors.{Failure, Catalog, is_not_found, error_text}
use editrig_go.Entity.{Entity, Hook, SaveResult, ValidateResult}
use editrig_go.Http.{
  Request, errors, Exec, pure, reply, reply_error, crash, call, with_cleanup, ◌>>=◌,
}
use editrig_go.Upload.{Decoded, rejected, decoded, or_empty, decode_body}
use editrig_go.Handler.{
  Handler, partition, entity_of, schema_or_500, load_or_500, load_or_404, envelope_of,
}

abbrev pub counts : Map (List Upload) → Map ℕ
counts [] = []
counts ((field, ups) ∷ files) = (field, length ups) ∷ counts files

-- What the loop over the files has done so far: the payload and the errors.
pub record Injected : Type 0 where
  pub payload : Data
  pub field_errors : List FieldError

abbrev pub unexpected_file : String → FieldError
unexpected_file field = record { field = "/" +++ field; message = "unexpected file" }

abbrev refuse_file : String → Injected → Injected
refuse_file field s = record s { field_errors = s.field_errors ++ unexpected_file field ∷ [] }

-- `in[field] = ups[0]`; an index out of range panics.
abbrev put_single : String → List Upload → Injected → Option Injected
put_single field [] s = none
put_single field (up ∷ []) s = some (record s { payload = insert field (upload up) s.payload })
put_single field (up ∷ more) s = some (refuse_file field s)

-- The submitted items, with the uploads behind them.
abbrev pub multi_value : String → List Upload → Injected → Value
multi_value field ups s =
    arr (of_items (or_nil (as_array (lookup field s.payload)) ++ map upload ups))

abbrev put_multi : String → List Upload → Injected → Injected
put_multi field ups s = record s { payload = insert field (multi_value field ups s) s.payload }

-- The `switch` on the field's kind.
unfoldable pub inject_kind : MediaKind → String → List Upload → Injected → Option Injected
inject_kind media_none field ups s = some (refuse_file field s)
inject_kind media_single field ups s = put_single field ups s
inject_kind media_multi field ups s = some (put_multi field ups s)

-- The loop over the sorted fields.
unfoldable pub inject : Raw → Map (List Upload) → List String → Injected → Option Injected
inject ui_schema files [] s = some s
inject ui_schema files (field ∷ fields) s =
    elim (inject_kind (media_field_kind ui_schema field) field (or_nil (lookup field files)) s) [
      | none ↦ none
      | some next ↦ inject ui_schema files fields next
    ]

abbrev pub is_disabled : {S : Type 0} → Entity S → Bool → Bool
is_disabled e is_update = (is_update && e.disable_update) || (not is_update && e.disable_create)

-- On create the id exists only after `Save`.
abbrev pub saved_id : Option String → String → String
saved_id none out_id = out_id
saved_id (some id) out_id = id

abbrev pub write_status : Bool → ℕ
write_status true = 200
write_status false = 201

module _ {S : Type 0} where
  -- 422 with the errors, if there are any.
  unfoldable pub refuse_errors : List FieldError → Exec S (Unit {0})
  refuse_errors fe = if is_empty fe then pure tt else reply 422 (errors (partition fe))

  abbrev pub unknown_checked : Option (List FieldError × Data) → Exec S Data
  unknown_checked none = reply_error 500 "schema"
  unknown_checked (some (fe, input)) = do _ ← refuse_errors fe; pure input

  abbrev pub structural_checked : Checked (List FieldError) → Exec S (List FieldError)
  structural_checked (ok fe) = pure fe
  structural_checked failed = reply_error 500 "schema"
  structural_checked exhausted = reply_error 500 "schema"

  abbrev pub injected_checked : Option Injected → Exec S Injected
  injected_checked none = crash
  injected_checked (some s) = pure s

  abbrev pub call_validate :
      Option (Catalog → Option String → Data → Hook S ValidateResult)
      → Catalog
      → Option String
      → Injected
      → Exec S Injected
  call_validate none cat id s = pure s
  call_validate (some hook) cat id s = do
    v ← call (hook cat id s.payload)
    pure (record { payload = v.payload; field_errors = s.field_errors ++ v.field_errors })

  -- `Validate`, where the entity has it: the payload may change, the errors add up.
  unfoldable pub run_validate : Entity S → Catalog → Option String → Injected → Exec S Injected
  run_validate e cat id s = call_validate e.validate cat id s

  abbrev pub save_failure : String → Option Failure → Exec S String
  save_failure out_id none = pure out_id
  save_failure out_id (some f) =
      if is_not_found f then reply_error 404 "not found" else reply_error 500 "save"

  -- What follows the result of `Save`, in the order of the source's tests.
  unfoldable pub save_checked : SaveResult → Exec S String
  save_checked saved = do
    _ ← refuse_errors saved.field_errors
    save_failure saved.out_id saved.failure

  -- The row after the write, and the answer.
  unfoldable pub answer_saved : Entity S → Catalog → Bool → String → Exec S (Unit {0})
  answer_saved e cat is_update id = do
    row ← load_or_500 e id
    s ← schema_or_500 e cat row
    reply (write_status is_update) (envelope_of e (some id) s row)

  -- The preliminary `Load` of an update; a create has no current row.
  unfoldable pub current_row : Entity S → Option String → Exec S (Option Data)
  current_row e none = pure none
  current_row e (some id) = do row ← load_or_404 e id; pure (some row)

-- The payload that is ready for `Save`, or an answer: everything between the decoded body and the
-- call of `Save`.
module _ (engine : SchemaEngine) {S : Type 0} (policy : String) where
  unfoldable pub checked_payload :
      Entity S → Catalog → Option String → Option Data → Data → Map (List Upload) → Exec S Data
  checked_payload e cat id current input files = do
    s ← schema_or_500 e cat current
    known ← unknown_checked (unknown_fields s.schema (strip_readonly s.ui_schema input).1 policy)
    fe ← structural_checked (Write.write engine s.schema s.ui_schema current known (counts files))
    injected ← injected_checked (
        inject s.ui_schema files (sort_strings (keys files))
          (record { payload = known; field_errors = fe }))
    ready ← run_validate e cat id injected
    _ ← refuse_errors ready.field_errors
    pure ready.payload

  unfoldable pub write_decoded :
      Entity S
      → (Option String → Data → Hook S SaveResult)
      → Catalog
      → Option String
      → Option Data
      → Data
      → Map (List Upload)
      → Exec S (Unit {0})
  write_decoded e save cat id current input files = do
    ready ← checked_payload e cat id current input files
    saved ← call (save id ready)
    out_id ← save_checked saved
    answer_saved e cat (is_some id) (saved_id id out_id)

  abbrev pub body_checked :
      Entity S
      → (Option String → Data → Hook S SaveResult)
      → Catalog
      → Option String
      → Option Data
      → Decoded
      → Exec S (Unit {0})
  body_checked e save cat id current (rejected status f) = reply_error status (error_text f)
  body_checked e save cat id current (decoded input files held) =
      with_cleanup held (write_decoded e save cat id current (or_empty input) files)

module _ (engine : SchemaEngine) {S : Type 0} (h : Handler S) (r : Request) where
  abbrev pub write_hook :
      Entity S
      → Option String
      → Option (Option String → Data → Hook S SaveResult)
      → Exec S (Unit {0})
  write_hook e id none = reply_error 405 "method not allowed"
  write_hook e id (some save) =
      if is_disabled e (is_some id) then reply_error 405 "method not allowed" else do
        current ← current_row e id
        b ← decode_body r h.settings.body_limits
        body_checked engine h.settings.unknown_fields e save (h.copy r e.name) id current b

  unfoldable pub write : String → Option String → Exec S (Unit {0})
  write name id = do e ← entity_of h name; write_hook e id e.save

  unfoldable pub create : String → Exec S (Unit {0})
  create name = write name none

  unfoldable pub update : String → String → Exec S (Unit {0})
  update name id = write name (some id)
