-- ===== src/Ui/Split.antt =====
-- ui/field.go: the halves of a field, the property of the JSON Schema and the entry of the
-- uiSchema, and the names that a document requires; ui/relation.go and ui/media.go: relations.
pub mod Laws
use editrig_go.Base.{
  Bool, true, false, ◌||◌, ◌&&◌, not, Option, none, some, List, [], ◌∷◌, ◌++◌, String, ◌==◌,
  if◌then◌else◌, mem_text, is_some,
}
use editrig_go.Text.{cut_prefix}
use editrig_go.Text.Sort.{sort_strings}
use editrig_go.Map.{Map, lookup, insert}
use editrig_go.Ui.{
  Any, flag, text, texts, labels, object, Entries, end, entry, Field, equals_text, required_key,
  items_key, keyed_items_key, is_required,
}
use editrig_go.Ui.Fields.{of_entries, with_option}

abbrev pub ui_prefix : String
ui_prefix = "ui:"

abbrev pub item_ui_key : String
item_ui_key = "$itemUI"

-- `strings.HasPrefix(k, uiPrefix)`.
unfoldable pub is_ui : String → Bool
is_ui k = is_some (cut_prefix k ui_prefix)

-- The markers that reach neither half.
unfoldable pub is_dropped : String → Bool
is_dropped k = k == required_key || (k == items_key || k == keyed_items_key)

-- One key of a field, entered in the halves.
unfoldable pub place : String → Any → Field × Field → Field × Field
place k v (prop, ui) =
    if is_dropped k
    then (prop, ui)
    else if k == item_ui_key
    then (prop, insert "items" v ui)
    else if is_ui k
    then (prop, insert k v ui)
    else (insert k v prop, ui)

unfoldable pub split_field : Field → Field × Field
split_field [] = ([], [])
split_field ((k, v) ∷ rest) = place k v (split_field rest)

abbrev pub add_entry : String → Field → Map Any → Map Any
add_entry name [] out = out
add_entry name (kv ∷ rest) out = insert name (object (of_entries (kv ∷ rest))) out

unfoldable pub split : Map Field → Map Any × Map Any
split [] = ([], [])
split ((name, f) ∷ fields) =
    let (props, entries) = split fields in
    let (prop, ui) = split_field f in
    (insert name (object (of_entries prop)) props, add_entry name ui entries)

abbrev pub requires : Option Field → Bool
requires none = false
requires (some f) = is_required f

unfoldable pub required_in : Map Field → List String → List String
required_in fields [] = []
required_in fields (name ∷ order) =
    let rest = required_in fields order in
    if requires (lookup name fields) then name ∷ rest else rest

unfoldable pub stray : Map Field → List String → List String
stray [] order = []
stray ((name, f) ∷ fields) order =
    let rest = stray fields order in
    if not (mem_text name order) && is_required f then name ∷ rest else rest

unfoldable pub required_of : Map Field → List String → List String
required_of fields order = required_in fields order ++ sort_strings (stray fields order)

abbrev pub relation_field_key : String
relation_field_key = "relation"

abbrev pub relation_options : String → Bool → Entries
relation_options collection multi =
    entry "collection" (text collection) (entry "multi" (flag multi) end)

unfoldable pub relation : String → Bool → Field
relation collection true =
    ("type", text "array")
    ∷ ("items", object (entry "type" (text "string") end))
    ∷ ("uniqueItems", flag true)
    ∷ ("ui:field", text relation_field_key)
    ∷ ("ui:options", object (relation_options collection true))
    ∷ []
relation collection false =
    ("type", text "string")
    ∷ ("ui:field", text relation_field_key)
    ∷ ("ui:options", object (relation_options collection false))
    ∷ []

unfoldable pub media : String → String → Field
media collection aspect =
    with_option "aspect" (text aspect)
      (insert "ui:field" (text "media") (relation collection false))

unfoldable pub media_multi : String → String → Field
media_multi collection aspect =
    with_option "aspect" (text aspect) (insert "ui:field" (text "media") (relation collection true))

unfoldable pub parent_field : String → Field → Field
parent_field field f = with_option "parentField" (text field) f

unfoldable pub relation_labels : Map String → Field → Field
relation_labels names f = with_option "labels" (labels names) f

unfoldable pub is_relation : Field → Bool
is_relation f =
    equals_text (lookup "ui:field" f) relation_field_key
    || equals_text (lookup "ui:field" f) "media"
