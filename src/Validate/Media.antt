-- ===== src/Validate/Media.antt =====
-- validate/media.go: does a field accept file parts.
use editrig_go.Base.{String, Option, none, some, if◌then◌else◌}
use editrig_go.Map.{lookup}
use editrig_go.Json.{
  Value, Data, Raw, is_absent, unmarshal_object, object_of, as_object, as_string, as_bool, or_nil,
  is_true, is_text,
}

pub data MediaKind : Type 0 where
  media_none media_single media_multi : MediaKind

abbrev pub media_field_key : String
media_field_key = "media"

-- The tests on one uiSchema entry.
unfoldable pub entry_kind : Data → MediaKind
entry_kind entry =
    if is_true (as_bool (lookup "ui:readonly" entry))
    then media_none
    else if is_text (as_string (lookup "ui:field" entry)) media_field_key
    then if is_true (as_bool (lookup "multi" (or_nil (as_object (lookup "ui:options" entry)))))
      then media_multi
      else media_single
    else media_none

unfoldable pub raw_kind : Option Value → MediaKind
raw_kind none = media_none
raw_kind (some raw) = elim (object_of raw) [ none ↦ media_none | some entry ↦ entry_kind entry ]

unfoldable pub media_field_kind : Raw → String → MediaKind
media_field_kind ui_schema field =
    if is_absent ui_schema then media_none else elim (unmarshal_object ui_schema) [
      | none ↦ media_none
      | some entries ↦ raw_kind (lookup field entries)
    ]
