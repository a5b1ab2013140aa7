-- ===== src/Validate/Unknown.antt =====
-- validate/unknown.go: the policy for submitted top-level keys that the schema does not declare.
-- A policy is its text, as in the source; `none` is the error of a schema that does not decode.
pub mod Policy
pub mod Pointer
use editrig_go.Base.{
  Bool, true, false, ◌||◌, String, Option, none, some, List, [], ◌∷◌, map, if◌then◌else◌, ◌==◌,
}
use editrig_go.Text.{replace_byte, ◌+++◌}
use editrig_go.Text.Sort.{sort_strings}
use editrig_go.Map.{lookup, delete, has, keys}
use editrig_go.Json.{Value, Data, Raw, doc, obj, null, members, object_of, unmarshal_object}
use editrig_go.Validate.{FieldError}

unfoldable pub pointer_token : String → String
pointer_token s = replace_byte b'/' "~1" (replace_byte b'~' "~0" s)

abbrev pub allow_unknown_fields : String
allow_unknown_fields = "allow"

abbrev pub reject_unknown_fields : String
reject_unknown_fields = "reject"

abbrev pub strip_unknown_fields : String
strip_unknown_fields = "strip"

abbrev pub properties_member : Option Value → Option Data
properties_member none = some []
properties_member (some raw) = object_of raw

-- Decoding into the struct with the one field `properties`.
unfoldable pub schema_properties : Raw → Option Data
schema_properties schema = elim (unmarshal_object schema) [
  | none ↦ none
  | some top ↦ properties_member (lookup "properties" top)
]

-- The loop over the payload's keys.
unfoldable pub undeclared : Data → List String → List String
undeclared props [] = []
undeclared props (key ∷ rest) =
    let more = undeclared props rest in if has key props then more else key ∷ more

unfoldable pub delete_all : List String → Data → Data
delete_all [] input = input
delete_all (key ∷ rest) input = delete_all rest (delete key input)

abbrev pub unknown_error : String → FieldError
unknown_error key = record { field = "/" +++ pointer_token key; message = "unknown field" }

unfoldable pub unknown_fields : Raw → Data → String → Option (List FieldError × Data)
unknown_fields schema input policy =
    if policy == allow_unknown_fields || policy == ""
    then some ([], input)
    else elim (schema_properties schema) [
      | none ↦ none
      | some props ↦
          let unknown = sort_strings (undeclared props (keys input)) in
          if policy == strip_unknown_fields
          then some ([], delete_all unknown input)
          else some (map unknown_error unknown, input)
    ]
