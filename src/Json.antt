-- ===== src/Json.antt =====
-- The values that `map[string]any` holds in this repository, and what the code asks of
-- `encoding/json`. A number is its decimal text, a `[]byte` its base64 text.
use editrig_go.Base.{
  Bool, true, false, Option, none, some, List, [], ◌∷◌, String, ◌==◌, ◌≡◌, refl, ap,
}
use editrig_go.Map.{Map}

-- `Upload`.
pub record Upload : Type 0 where
  pub filename : String
  pub mime : String
  pub content : String

-- `typed` is a Go map of another type than `map[string]any`, `opaque` a value that `json.Marshal`
-- refuses; both may stand in a loaded row, and neither comes out of a decoder.
mutual
  pub data Value : Type 0 where
    null : Value
    bool : Bool → Value
    num : String → Value
    str : String → Value
    arr : Items → Value
    obj : Members → Value
    upload : Upload → Value
    typed : Members → Value
    opaque : Value

  pub data Items : Type 0 where
    nil : Items
    cons : Value → Items → Items

  pub data Members : Type 0 where
    end : Members
    member : String → Value → Members → Members

-- A payload or a row, `map[string]any`.
abbrev pub Data : Type 0
Data = Map Value

abbrev pub items : Items → List Value
items nil = []
items (cons v vs) = v ∷ items vs

abbrev pub of_items : List Value → Items
of_items [] = nil
of_items (v ∷ vs) = cons v (of_items vs)

abbrev pub members : Members → Data
members end = []
members (member k v ms) = (k, v) ∷ members ms

abbrev pub of_members : Data → Members
of_members [] = end
of_members ((k, v) ∷ ms) = member k v (of_members ms)

pub items-of_items : (vs : List Value) → items (of_items vs) ≡ vs
items-of_items [] = refl
items-of_items (v ∷ vs) = ap (v ∷◌) (items-of_items vs)

pub members-of_members : (ms : Data) → members (of_members ms) ≡ ms
members-of_members [] = refl
members-of_members ((k, v) ∷ ms) = ap ((k, v) ∷◌) (members-of_members ms)

-- `json.RawMessage`: no bytes, bytes that are no JSON document, or the document.
pub data Raw : Type 0 where
  absent : Raw
  malformed : Raw
  doc : Value → Raw

-- `len(raw) == 0`.
abbrev pub is_absent : Raw → Bool
is_absent absent = true
is_absent _ = false

-- `json.Unmarshal` into an `any`.
abbrev pub unmarshal_any : Raw → Option Value
unmarshal_any (doc v) = some v
unmarshal_any _ = none

abbrev pub object_of : Value → Option Data
object_of null = some []
object_of (obj ms) = some (members ms)
object_of _ = none

-- `json.Unmarshal` into a nil `map[string]any`, or into a nil `map[string]json.RawMessage` whose
-- entries are documents then; `null` leaves the map nil.
abbrev pub unmarshal_object : Raw → Option Data
unmarshal_object (doc v) = object_of v
unmarshal_object _ = none

-- The type assertions `v.(map[string]any)`, `v.([]any)`, `v.(string)` and `v.(bool)`, on a value
-- that a map lookup may not find.
abbrev pub as_object : Option Value → Option Data
as_object (some (obj ms)) = some (members ms)
as_object _ = none

abbrev pub as_array : Option Value → Option (List Value)
as_array (some (arr vs)) = some (items vs)
as_array _ = none

abbrev pub as_string : Option Value → Option String
as_string (some (str s)) = some s
as_string _ = none

abbrev pub as_bool : Option Value → Option Bool
as_bool (some (bool b)) = some b
as_bool _ = none

-- `_, _ := v.(T)`: the zero value where the assertion fails.
abbrev pub or_nil {ℓ} : {A : Type ℓ} → Option (List A) → List A
or_nil none = []
or_nil (some xs) = xs

abbrev pub is_true : Option Bool → Bool
is_true (some true) = true
is_true _ = false

abbrev pub is_text : Option String → String → Bool
is_text none t = false
is_text (some s) t = s == t
