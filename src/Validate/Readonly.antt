-- ===== src/Validate/Readonly.antt =====
-- validate/readonly.go: read-only keys are cut from the payload.
pub mod Strip
use editrig_go.Base.{
  Bool, true, false, not, ◌&&◌, String, Option, none, some, List, [], ◌∷◌, if◌then◌else◌,
}
use editrig_go.Text.{has_prefix}
use editrig_go.Text.Sort.{sort_strings}
use editrig_go.Map.{lookup, delete, has}
use editrig_go.Json.{
  Value, Data, Raw, is_absent, unmarshal_object, object_of, as_bool, or_nil, is_true,
}

abbrev pub ui_key_prefix : String
ui_key_prefix = "ui:"

-- Is `entry` an object that carries "ui:readonly": true.
unfoldable pub is_readonly_entry : Value → Bool
is_readonly_entry raw = elim (object_of raw) [
  | none ↦ false
  | some entry ↦ is_true (as_bool (lookup "ui:readonly" entry))
]

-- The loop of `ReadonlyFields`.
unfoldable pub readonly_keys : Data → List String
readonly_keys [] = []
readonly_keys ((key, raw) ∷ entries) =
    let rest = readonly_keys entries in
    if not (has_prefix key ui_key_prefix) && is_readonly_entry raw then key ∷ rest else rest

unfoldable pub readonly_fields : Raw → List String
readonly_fields ui_schema =
    if is_absent ui_schema
    then []
    else sort_strings (readonly_keys (or_nil (unmarshal_object ui_schema)))

-- The loop of `StripReadonly`: the names that were removed, and the payload that is left.
unfoldable pub strip_keys : List String → Data → List String × Data
strip_keys [] input = ([], input)
strip_keys (f ∷ fs) input = elim (has f input) [
  | true ↦ (let (dropped, left) = strip_keys fs (delete f input) in (f ∷ dropped, left))
  | false ↦ strip_keys fs input
]

unfoldable pub strip_readonly : Raw → Data → List String × Data
strip_readonly ui_schema input = strip_keys (readonly_fields ui_schema) input
