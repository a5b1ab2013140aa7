-- ===== src/Upload.antt =====
-- upload.go: reading the request body, plain JSON or a multipart form with file parts.
pub mod Laws
use editrig_go.Base.{
  ℕ, suc, ◌+◌, ◌-◌, Bool, true, false, Option, none, some, List, [], ◌∷◌, ◌++◌, String, ◌==◌,
  if◌then◌else◌, leb, ltb,
}
use editrig_go.Text.{has_prefix, cut_prefix, equal_fold}
use editrig_go.Map.{Map, lookup, insert, copy_into}
use editrig_go.Json.{
  Value, null, obj, Data, Raw, absent, malformed, doc, members, object_of, or_nil, Upload,
}
use editrig_go.Errors.{Failure, max_bytes, plain, is_too_large}
use editrig_go.Config.{BodyLimits, defaults, to_ℕ}
use editrig_go.Http.{
  Token, value, broken, Read, FilePart, Form, Body, Request, Exec, Step, go, World, pure, crash,
  ◌>>=◌,
}

abbrev pub file_part_prefix : String
file_part_prefix = "file:"

abbrev pub err_body_too_large : Failure
err_body_too_large = plain "body too large"

abbrev pub err_malformed_multipart : Failure
err_malformed_multipart = plain "malformed multipart body"

-- The texts of encoding/json errors, without the offsets and Go types that they name.
abbrev pub err_json_type : Failure
err_json_type = plain "json: cannot unmarshal"

abbrev pub err_json_syntax : Failure
err_json_syntax = plain "invalid character"

-- The body is refused with a status, or read: `data` (nil or a map), the files by field, and
-- whether a form's temporary files are left for the caller's cleanup.
pub data Decoded : Type 0 where
  rejected : ℕ → Failure → Decoded
  decoded : Option Data → Map (List Upload) → Bool → Decoded

abbrev pub or_empty : Option Data → Data
or_empty none = []
or_empty (some d) = d

-- Decoding a value into the field `Data`: null empties it, an object adds its entries to those that
-- are there, and all else is a type error.
abbrev data_value : Value → Option Data → Option (Option Data)
data_value null read = some none
data_value (obj ms) read = some (some (copy_into (members ms) (or_empty read)))
data_value v read = none

-- The members in their order; encoding/json matches the name of a field in any case.
unfoldable pub data_from : Data → Option Data → Option (Option Data)
data_from [] read = some read
data_from ((key, v) ∷ rest) read =
    if equal_fold key "data"
    then elim (data_value v read) [ none ↦ none | some next ↦ data_from rest next ]
    else data_from rest read

-- Decoding a value into `requestBody`; the outer `none` is a type error.
unfoldable pub request_data : Value → Option (Option Data)
unfolding data_from
request_data v = elim (object_of v) [ none ↦ none | some top ↦ data_from top none ]

-- One call of the decoder on a body cut at `limit` bytes.
pub data Outcome : Type 0 where
  found : Value → Outcome
  at_end : Outcome
  trouble : Failure → Outcome

abbrev token_outcome : Token → Outcome
token_outcome (value v) = found v
token_outcome (broken text) = trouble (plain text)

unfoldable pub read_at : ℕ → ℕ → List Read → Outcome
read_at limit size [] = if leb size limit then at_end else trouble max_bytes
read_at limit size (r ∷ rest) =
    if leb r.upto limit then token_outcome r.token else trouble max_bytes

abbrev later : List Read → List Read
later [] = []
later (r ∷ rest) = rest

-- `decodeJSONBody`: the data, or the error.
pub data JsonBody : Type 0 where
  body : Option Data → JsonBody
  bad : Failure → JsonBody

abbrev second_read : Option Data → Outcome → JsonBody
second_read payload (found v) = bad (plain "expected a single JSON object")
second_read payload at_end = body payload
second_read payload (trouble f) = bad f

abbrev first_read : Outcome → Outcome → JsonBody
first_read (trouble f) next = bad f
first_read at_end next = bad (plain "EOF")
first_read (found v) next = elim (request_data v) [
  | none ↦ bad err_json_type
  | some payload ↦ second_read payload next
]

unfoldable pub decode_json_body : ℕ → Body → JsonBody
decode_json_body limit b =
    first_read (read_at limit b.size b.reads) (read_at limit b.size (later b.reads))

abbrev plain_result : JsonBody → Decoded
plain_result (body payload) = decoded payload [] false
plain_result (bad f) = if is_too_large f then rejected 413 err_body_too_large else rejected 400 f

-- The "payload" part: `none` is an error of the decoder.
abbrev payload_value : Option (List Raw) → Raw
payload_value none = absent
payload_value (some []) = absent
payload_value (some (raw ∷ rest)) = raw

pub data Payload : Type 0 where
  payload : Data → Payload
  bad_payload : Failure → Payload

abbrev payload_of : Raw → Payload
payload_of absent = payload []
payload_of malformed = bad_payload err_json_syntax
payload_of (doc v) = elim (request_data v) [
  | none ↦ bad_payload err_json_type
  | some read ↦ payload (or_empty read)
]

pub data Files : Type 0 where
  files : Map (List Upload) → Files
  bad_file : Failure → Files

abbrev append_upload : String → Upload → Map (List Upload) → Map (List Upload)
append_upload field up m = insert field (or_nil (lookup field m) ++ up ∷ []) m

-- The loop over the parts of one name.
unfoldable pub read_parts : String → List FilePart → Map (List Upload) → Files
read_parts field [] m = files m
read_parts field (part ∷ parts) m = elim part.content [
  | none ↦ bad_file (plain part.trouble)
  | some bytes ↦ read_parts field parts (
      append_upload field (record { filename = part.filename; mime = part.mime; content = bytes })
        m)
]

-- The loop over the names of the file parts.
unfoldable pub read_files : Map (List FilePart) → Map (List Upload) → Files
read_files [] m = files m
read_files ((name, parts) ∷ rest) m = elim (cut_prefix name file_part_prefix) [
  | none ↦ read_files rest m
  | some field ↦ elim (read_parts field parts m) [
    | files next ↦ read_files rest next
    | bad_file f ↦ bad_file f
  ]
]

module _ {S : Type 0} where
  -- `cleanup()`.
  unfoldable pub remove_all : Exec S (Unit {0})
  remove_all w = (go tt, record w { open_forms = w.open_forms - 1 })

  -- A form was parsed: its temporary files are on disk.
  unfoldable pub open_form : Exec S (Unit {0})
  open_form w = (go tt, record w { open_forms = w.open_forms + 1 })

  unfoldable pub reject_form : ℕ → Failure → Exec S Decoded
  reject_form status f = do _ ← remove_all; pure (rejected status f)

  abbrev with_files : Data → Files → Exec S Decoded
  with_files input (bad_file f) = reject_form 400 f
  with_files input (files m) = pure (decoded (some input) m true)

  abbrev with_payload : Form → Payload → Exec S Decoded
  with_payload form (bad_payload f) = reject_form 400 f
  with_payload form (payload input) = with_files input (read_files form.files [])

  -- What follows a successful parse: the epilogue, the payload part, the file parts.
  unfoldable pub decode_form : ℕ → Body → Form → Exec S Decoded
  decode_form limit b form =
      if ltb limit b.size
      then reject_form 413 err_body_too_large
      else if b.tail_broken
      then reject_form 400 err_malformed_multipart
      else with_payload form (payload_of (payload_value (lookup "payload" form.values)))

  -- `ParseMultipartForm` parses the body also when the query is malformed, and reports the query's
  -- error afterwards: the form is then on disk, and the refusal has no cleanup.
  abbrev pub parsed_form : ℕ → Bool → Body → Option Form → Exec S Decoded
  parsed_form limit bad_query b none = pure (rejected 400 err_malformed_multipart)
  parsed_form limit bad_query b (some form) = do
    _ ← open_form
    (if bad_query then pure (rejected 400 err_malformed_multipart) else decode_form limit b form)

  unfoldable pub decode_multipart : ℕ → Bool → Body → Exec S Decoded
  decode_multipart limit bad_query b =
      if ltb limit b.form_upto
      then pure (rejected 413 err_body_too_large)
      else parsed_form limit bad_query b b.form

  abbrev pub decode_limited : Request → Option BodyLimits → Exec S Decoded
  decode_limited r none = crash
  decode_limited r (some l) =
      if has_prefix r.content_type "multipart/"
      then decode_multipart (to_ℕ l.multipart_bytes) r.bad_query r.body
      else pure (plain_result (decode_json_body (to_ℕ l.json_bytes) r.body))

  unfoldable pub decode_body : Request → BodyLimits → Exec S Decoded
  decode_body r limits = decode_limited r (defaults limits)
