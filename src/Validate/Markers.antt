-- ===== src/Validate/Markers.antt =====
-- The upload markers of validate/write.go: objects that stand for pending files in the payload
-- that is validated.
pub mod Fresh
use editrig_go.Base.{
  ℕ, zero, suc, ◌+◌, Bool, true, false, ◌&&◌, ◌||◌, none, some, List, [], ◌∷◌, String, ◌==◌,
  if◌then◌else◌, nat_eq, length,
}
use editrig_go.Text.{◌+++◌}
use editrig_go.Text.Decimal.{itoa}
use editrig_go.Map.{lookup}
use editrig_go.Json.{
  Value, Items, Members, null, bool, num, str, arr, obj, nil, cons, end, member, members, Data,
}

abbrev pub bool_eq : Bool → Bool → Bool
bool_eq true b = b
bool_eq false true = false
bool_eq false false = true

-- `reflect.DeepEqual` on what a decoder returns: maps have as many entries and agree on each key.
unfoldable mutual
  pub deep_equal : Value → Value → Bool
  deep_equal null null = true
  deep_equal (bool a) (bool b) = bool_eq a b
  deep_equal (num a) (num b) = a == b
  deep_equal (str a) (str b) = a == b
  deep_equal (arr vs) (arr ws) = equal_items vs ws
  deep_equal (obj ms) (obj ns) =
      nat_eq (length (members ms)) (length (members ns)) && equal_members ms (members ns)
  deep_equal _ _ = false

  pub equal_items : Items → Items → Bool
  equal_items nil nil = true
  equal_items (cons v vs) (cons w ws) = deep_equal v w && equal_items vs ws
  equal_items _ _ = false

  pub equal_members : Members → Data → Bool
  equal_members end ns = true
  equal_members (member k v ms) ns =
      elim (lookup k ns) [ none ↦ false | some w ↦ deep_equal v w ] && equal_members ms ns

unfoldable pub marker_in : List Value → Value → Bool
marker_in [] marker = false
marker_in (value ∷ values) marker = deep_equal value marker || marker_in values marker

abbrev pub marker_of : String → Value
marker_of text = obj (member "$editrigUpload" (str text) end)

-- "<name>/<i>" and "<name>/<i>/<suffix>".
unfoldable pub plain_text : String → ℕ → String
plain_text name i = name +++ "/" +++ itoa i

unfoldable pub suffixed_text : String → ℕ → ℕ → String
suffixed_text name i suffix = plain_text name i +++ "/" +++ itoa suffix

-- The loop that looks for a text that no existing value uses. The fuel is the number of the
-- existing values: each of them rules out one text at most.
unfoldable pub fresh_from : ℕ → List Value → String → ℕ → ℕ → String → String
fresh_from zero existing name i suffix text = text
fresh_from (suc fuel) existing name i suffix text =
    let next = fresh_from fuel existing name i (suffix + 1) (suffixed_text name i suffix) in
    if marker_in existing (marker_of text) then next else text

unfoldable pub fresh_text : List Value → String → ℕ → String
fresh_text existing name i = fresh_from (length existing) existing name i 0 (plain_text name i)

-- `markers`, from index `i` on, `left` of them.
unfoldable pub markers_from : ℕ → List Value → String → ℕ → List Value
markers_from zero existing name i = []
markers_from (suc left) existing name i =
    marker_of (fresh_text existing name i) ∷ markers_from left existing name (i + 1)
