-- ===== src/Jet/Column/Arrays.antt =====
-- adapter/erjet/array.go: cells of array columns. Arrays of integers are left out.
use editrig_go.Base.{Option, none, some, List, [], ◌∷◌, String}
use editrig_go.Json.{Value, null, str, num, arr, items, of_items}
use editrig_go.Ui.Wire.{kind_list, kind_string, kind_number}
use editrig_go.Jet.Sql
use editrig_go.Jet.Sql.{
  SqlColumn, Expr, Assignment, Scanned, ScannedItems, column, texts, numbers, times,
}
use editrig_go.Jet.Values.{Library, normalize, rfc3339}
use editrig_go.Jet.Column.{Column}

-- What a parser of all elements returns: the literals and the echo. One element that does not parse
-- rejects the array.
abbrev add_element :
    String → Value → Option (List String × List Value) → Option (List String × List Value)
add_element literal echo none = none
add_element literal echo (some (literals, echoes)) = some (literal ∷ literals, echo ∷ echoes)

unfoldable pub parse_strings : List Value → Option (List String × List Value)
parse_strings [] = some ([], [])
parse_strings (str s ∷ vs) = add_element s (str s) (parse_strings vs)
parse_strings (v ∷ vs) = none

unfoldable pub parse_floats : List Value → Option (List String × List Value)
parse_floats [] = some ([], [])
parse_floats (num n ∷ vs) = add_element n (num n) (parse_floats vs)
parse_floats (v ∷ vs) = none

-- The two outputs of `arrayCell`.
abbrev array_value :
    (List String → Expr) → Option (List String × List Value) → Option (Expr × Value)
array_value make none = none
array_value make (some (literals, echoes)) = some (make literals, arr (of_items echoes))

unfoldable pub parse_array :
    (List String → Expr)
    → (List Value → Option (List String × List Value))
    → Value
    → Option (Expr × Value)
parse_array make parse null = some (Sql.null, null)
parse_array make parse (arr vs) = array_value make (parse (items vs))
parse_array make parse _ = none

abbrev set_array : SqlColumn → Option (Expr × Value) → Option (Assignment × Value)
set_array c none = none
set_array c (some (e, echo)) = some (record { target = c; value = e }, echo)

module _ (lib : Library) where
  unfoldable pub normalize_each : ScannedItems → List Value
  normalize_each ScannedItems.nil = []
  normalize_each (ScannedItems.cons v vs) = normalize lib v ∷ normalize_each vs

  unfoldable pub decode_array : Scanned → Value
  unfolding normalize_each
  decode_array Sql.null = null
  decode_array (Sql.array vs) = arr (of_items (normalize_each vs))
  decode_array v = lib.as_any v

  abbrev timestamp_element :
      Option String → Option (List String × List Value) → Option (List String × List Value)
  timestamp_element none rest = none
  timestamp_element (some t) rest = add_element t (normalize lib (Sql.time t)) rest

  unfoldable pub parse_timestamps : List Value → Option (List String × List Value)
  parse_timestamps [] = some ([], [])
  parse_timestamps (str s ∷ vs) = timestamp_element (lib.parse_time rfc3339 s) (parse_timestamps vs)
  parse_timestamps (v ∷ vs) = none

  module _ {S T : Type 0} where
    unfoldable pub array_cell :
        SqlColumn
        → String
        → (List String → Expr)
        → (List Value → Option (List String × List Value))
        → Column S T
    unfolding parse_array decode_array
    array_cell c elem make parse = record {
      proj = some (column c);
      assign = some λ v. set_array c (parse_array make parse v);
      value = some (parse_array make parse);
      decode = some decode_array;
      wire = record { kind = kind_list; elem = elem };
      load = none;
      save = none;
      satellite = none;
    }

    -- `Strings`, `Floats` and `Timestamps`.
    unfoldable pub strings : SqlColumn → Column S T
    unfolding array_cell parse_strings
    strings c = array_cell c kind_string texts parse_strings

    unfoldable pub floats : SqlColumn → Column S T
    unfolding array_cell parse_floats
    floats c = array_cell c kind_number numbers parse_floats

    unfoldable pub timestamps : SqlColumn → Column S T
    unfolding array_cell parse_timestamps
    timestamps c = array_cell c kind_string times parse_timestamps
