-- ===== src/Ui/Fields.antt =====
-- ui/field.go, ui/geopoint.go, ui/emoji.go, ui/icon.go and ui/media.go: the constructors of scalar
-- fields, the labels of enumerations and keys, and the modifiers. A number is its decimal text.
pub mod Laws
use editrig_go.Base.{true, Option, none, some, List, [], ◌∷◌, String, ◌==◌, map, if◌then◌else◌}
use editrig_go.Map.{Map, lookup, insert}
use editrig_go.Ui.{
  Key, Any, flag, number, text, texts, list, keys, object, Anys, nil, cons, Entries, end, entry,
  Field, as_object, or_empty,
}
use editrig_go.Ui.Modifiers.{with_key}

abbrev pub of_entries : Map Any → Entries
of_entries [] = end
of_entries ((k, v) ∷ rest) = entry k v (of_entries rest)

abbrev pub number_widget : String
number_widget = "number"

abbrev pub text_field : Field
text_field = ("type", text "string") ∷ []

abbrev pub number_field : Field
number_field = ("type", text "number") ∷ ("ui:widget", text number_widget) ∷ []

abbrev pub bool_field : Field
bool_field = ("type", text "boolean") ∷ []

abbrev pub integer : Field
integer = ("type", text "integer") ∷ ("ui:widget", text number_widget) ∷ []

abbrev pub timestamp : Field
timestamp = ("type", text "string") ∷ ("format", text "date-time") ∷ []

abbrev pub local_timestamp : Field
local_timestamp = ("type", text "string") ∷ ("ui:widget", text "localDatetime") ∷ []

abbrev pub time_of_day : Field
time_of_day = ("type", text "string") ∷ ("ui:widget", text "localTime") ∷ []

abbrev pub date : Field
date = ("type", text "string") ∷ ("format", text "date") ∷ []

abbrev pub json_field : Field
json_field = ("ui:field", text "json") ∷ []

abbrev pub geopoint : Field
geopoint = ("ui:field", text "geopoint") ∷ []

abbrev pub emoji : Field
emoji = ("type", text "string") ∷ ("ui:field", text "emoji") ∷ []

abbrev pub icon : Field
icon = ("type", text "string") ∷ ("ui:field", text "icon") ∷ []

-- `Keys`.
unfoldable pub bare_keys : List String → List Key
bare_keys [] = []
bare_keys (v ∷ vs) = record { value = v; label = "" } ∷ bare_keys vs

unfoldable pub text_values : List String → Anys
text_values [] = nil
text_values (v ∷ vs) = cons (text v) (text_values vs)

unfoldable pub enum : List String → Field
enum vs = ("type", text "string") ∷ ("enum", list (text_values vs)) ∷ []

module _ (label : String → String) (unset_label : String) where
  -- The name of one value; the null element reads "not set".
  abbrev pub enum_name : Any → String
  enum_name (text s) = label s
  enum_name _ = unset_label

  unfoldable pub enum_names : Anys → List String
  enum_names nil = []
  enum_names (cons v vs) = enum_name v ∷ enum_names vs

  abbrev pub labelled_enum : Option Any → Field → Field
  labelled_enum (some (list vs)) f = with_key "ui:enumNames" (texts (enum_names vs)) f
  labelled_enum _ f = f

  unfoldable pub enum_labels : Field → Field
  enum_labels f = labelled_enum (lookup "enum" f) f

-- `opts, _ := f["ui:options"].(map[string]any)`.
unfoldable pub options : Field → Map Any
options f = or_empty (as_object (lookup "ui:options" f))

-- A copy of the options in which one is set.
unfoldable pub with_option : String → Any → Field → Field
with_option key v f = with_key "ui:options" (object (of_entries (insert key v (options f)))) f

unfoldable pub col_span : String → Field → Field
col_span n f = with_option "colSpan" (number n) f

unfoldable pub decimals : String → Field → Field
decimals n f = with_option "decimals" (number n) f

unfoldable pub max_bytes : String → Field → Field
max_bytes n f = with_option "maxBytes" (number n) f

unfoldable pub generate : Entries → Field → Field
generate spec f = with_option "generate" (object spec) f

abbrev pub keyed_expanded : String
keyed_expanded = "expanded"

unfoldable pub keyed_layout : String → Field → Field
keyed_layout layout f =
    let next = insert "layout" (text layout) (options f) in
    with_key "ui:options"
      (object (
        of_entries (if layout == keyed_expanded then insert "colSpan" (number "2") next else next)))
      f

module _ (label : String → String) where
  abbrev pub labelled_key : Key → Key
  labelled_key k = record { value = k.value; label = label k.value }

  abbrev pub labelled_keys : Option Any → Field → Field
  labelled_keys (some (keys ks)) f = with_option "keys" (keys (map labelled_key ks)) f
  labelled_keys _ f = f

  unfoldable pub key_labels : Field → Field
  key_labels f = labelled_keys (lookup "keys" (options f)) f

unfoldable pub title : String → Field → Field
title s f = with_key "title" (text s) f

unfoldable pub minimum : String → Field → Field
minimum n f = with_key "minimum" (number n) f

unfoldable pub maximum : String → Field → Field
maximum n f = with_key "maximum" (number n) f

unfoldable pub min_len : String → Field → Field
min_len n f = with_key "minLength" (number n) f

unfoldable pub max_len : String → Field → Field
max_len n f = with_key "maxLength" (number n) f

unfoldable pub pattern_of : String → Field → Field
pattern_of re f = with_key "pattern" (text re) f

unfoldable pub format : String → Field → Field
format s f = with_key "format" (text s) f

unfoldable pub default : Any → Field → Field
default v f = with_key "default" v f

unfoldable pub max_items : String → Field → Field
max_items n f = with_key "maxItems" (number n) f

unfoldable pub widget : String → Field → Field
widget s f = with_key "ui:widget" (text s) f

unfoldable pub help : String → Field → Field
help s f = with_key "ui:help" (text s) f

unfoldable pub placeholder : String → Field → Field
placeholder s f = with_key "ui:placeholder" (text s) f

unfoldable pub disabled : Field → Field
disabled f = with_key "ui:disabled" (flag true) f
