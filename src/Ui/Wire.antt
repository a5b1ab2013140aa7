-- ===== src/Ui/Wire.antt =====
-- ui/wire.go: the shape in which a form sends a field's value.
pub mod Laws
use editrig_go.Base.{
  Bool, true, false, ◌||◌, Option, none, some, List, [], ◌∷◌, String, ◌==◌, if◌then◌else◌,
}
use editrig_go.Text.Sort.{sort_strings}
use editrig_go.Map.{Map, lookup, keys}
use editrig_go.Ui.{Any, Field, as_object, has_type, is_items, is_keyed, is_keyed_items}

abbrev pub kind_string : String
kind_string = "string"

abbrev pub kind_number : String
kind_number = "number"

abbrev pub kind_integer : String
kind_integer = "integer"

abbrev pub kind_bool : String
kind_bool = "boolean"

abbrev pub kind_list : String
kind_list = "list"

abbrev pub kind_items : String
kind_items = "items"

abbrev pub kind_map : String
kind_map = "map"

abbrev pub kind_any : String
kind_any = "any"

-- `Wire`; no element kind is the empty text.
pub record Wire : Type 0 where
  pub kind : String
  pub elem : String

-- `Wire.Match`.
unfoldable pub matches : Wire → Wire → Bool
matches w other =
    if w.kind == kind_any || other.kind == kind_any
    then true
    else if w.kind == other.kind
    then if w.elem == kind_any || other.elem == kind_any then true else w.elem == other.elem
    else false

unfoldable pub nested_kind : Option Any → String
nested_kind raw =
    if has_type raw "string"
    then kind_string
    else if has_type raw "integer"
    then kind_integer
    else if has_type raw "number"
    then kind_number
    else if has_type raw "boolean"
    then kind_bool
    else if has_type raw "array"
    then kind_list
    else if has_type raw "object"
    then kind_map
    else kind_any

unfoldable pub item_kind : Field → String
item_kind f = elim (as_object (lookup "items" f)) [
  | none ↦ kind_any
  | some item ↦ nested_kind (lookup "type" item)
]

-- The loop over the sorted names: the first property that is an object decides.
unfoldable pub first_kind : Map Any → List String → String
first_kind props [] = kind_any
first_kind props (name ∷ names) = elim (as_object (lookup name props)) [
  | none ↦ first_kind props names
  | some prop ↦ nested_kind (lookup "type" prop)
]

unfoldable pub inner_kind : Field → String
inner_kind f = elim (as_object (lookup "properties" f)) [
  | none ↦ kind_any
  | some props ↦ first_kind props (sort_strings (keys props))
]

abbrev plain : String → Wire
plain kind = record { kind = kind; elem = "" }

unfoldable pub wire_kind : Field → Wire
wire_kind f =
    if is_items f
    then plain kind_items
    else if is_keyed f
    then if is_keyed_items f
      then record { kind = kind_map; elem = kind_items }
      else record { kind = kind_map; elem = inner_kind f }
    else if has_type (lookup "type" f) "array"
    then record { kind = kind_list; elem = item_kind f }
    else if has_type (lookup "type" f) "string"
    then plain kind_string
    else if has_type (lookup "type" f) "integer"
    then plain kind_integer
    else if has_type (lookup "type" f) "number"
    then plain kind_number
    else if has_type (lookup "type" f) "boolean"
    then plain kind_bool
    else plain kind_any
