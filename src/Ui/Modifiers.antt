-- ===== src/Ui/Modifiers.antt =====
-- ui/field.go: the modifiers that mark a field as required, hidden, nullable or read-only. Each
-- changes a copy of the map.
pub mod Laws
use editrig_go.Base.{
  Bool, true, false, ◌||◌, Option, none, some, List, [], ◌∷◌, String, if◌then◌else◌, mem_text,
  is_some,
}
use editrig_go.Map.{Map, lookup, insert, delete, has}
use editrig_go.Ui.{
  Any, null, flag, text, texts, list, Anys, cons, Field, equals_text, required_key, is_readonly,
  is_hidden,
}

-- `Field.with`.
unfoldable pub with_key : String → Any → Field → Field
with_key key val f = insert key val f

unfoldable pub required : Field → Field
required f = with_key required_key (flag true) f

unfoldable pub hidden : Field → Field
hidden f = with_key "ui:widget" (text "hidden") f

-- Is `v` a `[]string` with "null".
abbrev pub names_null : Option Any → Bool
names_null (some (texts ts)) = mem_text "null" ts
names_null _ = false

unfoldable pub is_nullable : Field → Bool
is_nullable f = names_null (lookup "type" f)

abbrev pub nullable_type : Option Any → Field → Field
nullable_type (some (text t)) f = insert "type" (texts (t ∷ "null" ∷ [])) f
nullable_type _ f = f

abbrev pub nullable_enum : Option Any → Field → Field
nullable_enum (some (list vals)) f = insert "enum" (list (cons null vals)) f
nullable_enum _ f = f

-- A read-only field has no input to clear.
abbrev pub clearable : Bool → Field → Field
clearable true f = f
clearable false f = insert "ui:emptyValue" null f

unfoldable pub nullable : Field → Field
nullable f =
    if is_nullable f
    then f
    else let typed = nullable_type (lookup "type" f) f in
      let cleared = clearable (is_readonly typed) typed in
      nullable_enum (lookup "enum" cleared) cleared

unfoldable pub readonly : Field → Field
readonly f =
    let out = delete "ui:emptyValue" (with_key "ui:readonly" (flag true) f) in
    if is_hidden out || has "ui:field" out
    then out
    else insert "ui:widget" (text "readonlyDisplay") out
