-- ===== src/Validate/Write.antt =====
-- `Write` of validate/write.go: the payload laid over the row's state, with markers for the
-- pending files, against the schema widened for them.
pub mod Overlay
use editrig_go.Base.{
  ℕ, suc, ◌+◌, ◌*◌, Bool, true, false, not, ◌||◌, ◌&&◌, Option, none, some, List, [], ◌∷◌, ◌++◌,
  String, ◌==◌, if◌then◌else◌, is_empty, is_some, nat_eq,
}
use editrig_go.Map.{Map, lookup, insert, copy_into, has}
use editrig_go.Json.{
  Value, Items, Members, null, bool, num, str, arr, obj, upload, typed, opaque, nil, cons, end,
  member, Data, Raw, doc, is_absent, members, of_members, of_items, items, unmarshal_any,
  unmarshal_object, object_of, as_object, as_array, as_string, or_nil, is_text,
}
use editrig_go.Validate.{FieldError}
use editrig_go.Validate.Media.{MediaKind, media_none, media_single, media_multi, media_field_kind}
use editrig_go.Validate.Structural.{SchemaEngine, structural}
use editrig_go.Validate.Markers.{markers_from}
use editrig_go.Validate.Widen.{
  Checked, ok, failed, exhausted, ◌>>=◌, ◌>>◌, refuse_if, or_failed, any_of, any_of_markers,
  upload_array_schema,
}

-- The entries of a uiSchema that decode as objects.
unfoldable pub object_entries : Data → Map Data
object_entries [] = []
object_entries ((name, raw) ∷ entries) =
    let rest = object_entries entries in
    elim (object_of raw) [ none ↦ rest | some field ↦ (name, field) ∷ rest ]

unfoldable pub ui_entries : Raw → Checked (Map Data)
ui_entries ui_schema = elim (unmarshal_object ui_schema) [
  | none ↦ if is_absent ui_schema then ok [] else failed
  | some entries ↦ ok (object_entries entries)
]

abbrev cons_item : Option Value → Option Items → Option Items
cons_item (some v) (some vs) = some (cons v vs)
cons_item _ _ = none

abbrev cons_member : String → Option Value → Option Members → Option Members
cons_member k (some v) (some ms) = some (member k v ms)
cons_member k _ _ = none

abbrev map_obj : Option Members → Option Value
map_obj none = none
map_obj (some ms) = some (obj ms)

abbrev map_arr : Option Items → Option Value
map_arr none = none
map_arr (some vs) = some (arr vs)

-- A value after `json.Marshal` and a decoder with `UseNumber`; `none` where marshalling fails.
unfoldable mutual
  pub normalize : Value → Option Value
  normalize (arr vs) = map_arr (normalize_items vs)
  normalize (obj ms) = map_obj (normalize_members ms)
  normalize (typed ms) = map_obj (normalize_members ms)
  normalize (upload u) = some (
      obj (
        member "Filename" (str u.filename)
          (member "Mime" (str u.mime) (member "Data" (str u.content) end))))
  normalize opaque = none
  normalize v = some v

  pub normalize_items : Items → Option Items
  normalize_items nil = some nil
  normalize_items (cons v vs) = cons_item (normalize v) (normalize_items vs)

  pub normalize_members : Members → Option Members
  normalize_members end = some end
  normalize_members (member k v ms) = cons_member k (normalize v) (normalize_members ms)

-- The detached copy of the row; a create has none.
unfoldable pub loaded_copy : Option Data → Checked Data
loaded_copy none = ok []
loaded_copy (some current) = elim (normalize_members (of_members current)) [
  | none ↦ failed
  | some ms ↦ ok (members ms)
]

-- Is the field's uiSchema entry `"ui:field": "keyed"`.
unfoldable pub is_keyed : Map Data → String → Bool
is_keyed ui name = elim (lookup name ui) [
  | none ↦ false
  | some entry ↦ is_text (as_string (lookup "ui:field" entry)) "keyed"
]

-- The value that a submitted key gets: a keyed partition merges one level, any other replaces.
unfoldable pub merged_value : Map Data → Data → String → Value → Value
merged_value ui current name v =
    if is_keyed ui name
    then elim (as_object (lookup name current)) [
      | none ↦ v
      | some old ↦ elim (as_object (some v)) [
        | none ↦ v
        | some next ↦ obj (of_members (copy_into next old))
      ]
    ]
    else v

-- The loop over the payload, from a copy of the row.
unfoldable pub overlay : Map Data → Data → Data → Data → Data
overlay ui current [] merged = merged
overlay ui current ((name, v) ∷ input) merged =
    overlay ui current input (insert name (merged_value ui current name v) merged)

abbrev pub root_keywords : List String
root_keywords =
    "$ref" ∷ "$dynamicRef" ∷ "$recursiveRef" ∷ "allOf" ∷ "anyOf" ∷ "oneOf" ∷ "not" ∷ "if" ∷ "then"
    ∷ "else" ∷ "dependentSchemas" ∷ "dependencies" ∷ "patternProperties" ∷ []

-- The number of constructors: a bound for depths and for the references of a schema.
unfoldable mutual
  pub size : Value → ℕ
  size (arr vs) = suc (size_items vs)
  size (obj ms) = suc (size_members ms)
  size (typed ms) = suc (size_members ms)
  size _ = 1

  pub size_items : Items → ℕ
  size_items nil = 0
  size_items (cons v vs) = suc (size v + size_items vs)

  pub size_members : Members → ℕ
  size_members end = 0
  size_members (member k v ms) = suc (size v + size_members ms)

-- A reference is followed once on a path, and between two references the calls go down the tree.
unfoldable pub widen_fuel : Value → Value → ℕ
widen_fuel root node = (size root + size node + 2) * (size root + size node + 2)

-- The schema and the payload while the pending files are entered.
pub record Pending : Type 0 where
  pub schema : Data
  pub payload : Data

abbrev pub props_of : Data → Data
props_of schema = or_nil (as_object (lookup "properties" schema))

-- `props[name] = v`; `props` is the map inside the schema.
abbrev pub set_prop : String → Value → Data → Data
set_prop name v schema =
    insert "properties" (obj (of_members (insert name v (props_of schema)))) schema

-- One pending upload replaces the value of a single field.
unfoldable pub enter_single : Data → String → Value → Pending → Checked Pending
enter_single input name prop p =
    let markers = markers_from 1 (or_nil (as_array (lookup name input))) name 0 in
    ok (record {
      schema = set_prop name (any_of_markers markers prop) p.schema;
      payload = elim markers [ [] ↦ p.payload | marker ∷ more ↦ insert name marker p.payload ];
    })

-- The submitted value, where it is neither missing, nor null, nor an array.
abbrev pub no_list : Option Value → Option Value
no_list none = none
no_list (some null) = none
no_list (some (arr vs)) = none
no_list (some v) = some v

-- Pending uploads go behind the submitted items of a multi field.
unfoldable pub enter_multi : Data → String → ℕ → Value → Pending → Checked Pending
enter_multi input name count prop p =
    let list = or_nil (as_array (lookup name input)) in
    let markers = markers_from count list name 0 in
    let root = obj (of_members p.schema) in
    elim (no_list (lookup name input)) [
      | some existing ↦ ok (record p { payload = insert name existing p.payload })
      | none ↦ do
        expanded ← upload_array_schema root markers (widen_fuel root prop) [] prop
        ok (record {
          schema = set_prop name expanded p.schema;
          payload = insert name (arr (of_items (list ++ markers))) p.payload;
        })
    ]

-- `kind == MediaNone || (kind == MediaSingle && count != 1)`, with `count == 0` before it.
abbrev pub is_skipped : MediaKind → ℕ → Bool
is_skipped media_none count = true
is_skipped media_single count = not (nat_eq count 1)
is_skipped media_multi count = nat_eq count 0

abbrev pub enter_kind : MediaKind → Data → String → ℕ → Value → Pending → Checked Pending
enter_kind media_none input name count prop p = ok p
enter_kind media_single input name count prop p = enter_single input name prop p
enter_kind media_multi input name count prop p = enter_multi input name count prop p

-- The body of the loop over the pending files.
unfoldable pub enter_file : Raw → Data → String → ℕ → Pending → Checked Pending
enter_file ui_schema input name count p =
    let kind = media_field_kind ui_schema name in
    if is_skipped kind count then ok p else do
      refuse_if (any_of root_keywords p.schema)
      prop ← or_failed (lookup name (props_of p.schema))
      enter_kind kind input name count prop p

unfoldable pub enter_files : Raw → Data → Map ℕ → Pending → Checked Pending
enter_files ui_schema input [] p = ok p
enter_files ui_schema input ((name, count) ∷ files) p = do
  q ← enter_file ui_schema input name count p
  enter_files ui_schema input files q

-- What is handed to `Structural`: the adjusted schema and the overlaid payload.
unfoldable pub with_files : Raw → Raw → Data → Map ℕ → Data → Checked (Raw × Data)
with_files schema ui_schema input files merged = do
  root ← or_failed (unmarshal_any schema)
  elim (as_object (some root)) [
    | none ↦ ok (schema, merged)
    | some top ↦ do
      q ← enter_files ui_schema input files (record { schema = top; payload = merged })
      ok (doc (obj (of_members q.schema)), q.payload)
  ]

unfoldable pub prepare : Raw → Raw → Option Data → Data → Map ℕ → Checked (Raw × Data)
prepare schema ui_schema current input files = do
  ui ← ui_entries ui_schema
  loaded ← loaded_copy current
  let merged = overlay ui loaded input loaded
  if is_empty files then ok (schema, merged) else with_files schema ui_schema input files merged

module _ (engine : SchemaEngine) where
  unfoldable pub write : Raw → Raw → Option Data → Data → Map ℕ → Checked (List FieldError)
  write schema ui_schema current input files = do
    p ← prepare schema ui_schema current input files
    or_failed (structural engine p.0 p.1)
