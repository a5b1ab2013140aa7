-- ===== src/Ui.antt =====
-- ui/field.go, ui/items.go, ui/relation.go and ui/ui.go: a form field as the map that its
-- constructors fill, with the predicates that read it back, and a section of the form.
pub mod Wire
pub mod Modifiers
pub mod Fields
pub mod Split
use editrig_go.Base.{Bool, true, false, Option, none, some, List, [], ◌∷◌, String, ◌==◌, mem_text}
use editrig_go.Map.{Map, lookup}
use editrig_go.Config.{ℤ}

-- `Key`.
pub record Key : Type 0 where
  pub value : String
  pub label : String

-- What the maps of the vocabulary hold: `texts` is a `[]string`, `list` a `[]any`, `keys` a
-- `[]Key`, and `labels` a `map[string]string`.
mutual
  pub data Any : Type 0 where
    null : Any
    flag : Bool → Any
    number : String → Any
    text : String → Any
    texts : List String → Any
    list : Anys → Any
    keys : List Key → Any
    labels : Map String → Any
    object : Entries → Any

  pub data Anys : Type 0 where
    nil : Anys
    cons : Any → Anys → Anys

  pub data Entries : Type 0 where
    end : Entries
    entry : String → Any → Entries → Entries

abbrev pub Field : Type 0
Field = Map Any

abbrev pub entries : Entries → Map Any
entries end = []
entries (entry k v rest) = (k, v) ∷ entries rest

-- `b, _ := v.(bool)`.
abbrev pub as_flag : Option Any → Bool
as_flag (some (flag b)) = b
as_flag _ = false

-- `s, ok := v.(string)`.
abbrev pub as_text : Option Any → Option String
as_text (some (text s)) = some s
as_text _ = none

-- `m, ok := v.(map[string]any)`.
abbrev pub as_object : Option Any → Option (Map Any)
as_object (some (object m)) = some (entries m)
as_object _ = none

abbrev pub or_empty : Option (Map Any) → Map Any
or_empty none = []
or_empty (some m) = m

-- `v == want`.
abbrev pub equals_text : Option Any → String → Bool
equals_text (some (text s)) want = s == want
equals_text _ want = false

abbrev pub keyed_field_key : String
keyed_field_key = "keyed"

abbrev pub required_key : String
required_key = "$required"

abbrev pub items_key : String
items_key = "$items"

abbrev pub keyed_items_key : String
keyed_items_key = "$keyedItems"

unfoldable pub is_readonly : Field → Bool
is_readonly f = as_flag (lookup "ui:readonly" f)

unfoldable pub is_required : Field → Bool
is_required f = as_flag (lookup required_key f)

unfoldable pub is_hidden : Field → Bool
is_hidden f = equals_text (lookup "ui:widget" f) "hidden"

unfoldable pub is_keyed : Field → Bool
is_keyed f = equals_text (lookup "ui:field" f) keyed_field_key

unfoldable pub is_items : Field → Bool
is_items f = as_flag (lookup items_key f)

unfoldable pub is_keyed_items : Field → Bool
is_keyed_items f = as_flag (lookup keyed_items_key f)

unfoldable pub parent_field_name : Field → Option String
parent_field_name f = as_text (lookup "parentField" (or_empty (as_object (lookup "ui:options" f))))

-- `hasType` of ui/lint.go.
abbrev pub has_type : Option Any → String → Bool
has_type (some (text t)) want = t == want
has_type (some (texts ts)) want = mem_text want ts
has_type _ want = false

-- `Group`; zero columns leave the key out.
pub record Group : Type 0 where
  pub id : String
  pub title : String
  pub description : String
  pub columns : ℤ
  pub toggle_all : Bool
  pub fields : List String
