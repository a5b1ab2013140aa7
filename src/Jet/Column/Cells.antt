-- ===== src/Jet/Column/Cells.antt =====
-- The cell constructors of column.go. The cell of an integer column is left out.
use editrig_go.Base.{ℕ, ◌/◌, ◌%◌, ltb, Option, none, some, String, ◌==◌, ◌&&◌, not, if◌then◌else◌}
use editrig_go.Text.{◌+++◌}
use editrig_go.Text.Decimal.{itoa}
use editrig_go.Json.{Value, null, bool, num, str}
use editrig_go.Ui.Wire.{Wire, kind_any, kind_string, kind_bool, kind_number}
use editrig_go.Jet.Sql
use editrig_go.Jet.Sql.{
  SqlColumn, Expr, Projection, Assignment, Scanned, Tx, column, text, cast, boolean, number,
}
use editrig_go.Jet.Values.{Library, normalize, rfc3339}
use editrig_go.Jet.Column.{Column, as_uuid}

abbrev wire_of : String → Wire
wire_of kind = record { kind = kind; elem = "" }

-- What a parser returns: the expression and its echo.
abbrev Parse : Type 0
Parse = Value → Option (Expr × Value)

abbrev set : SqlColumn → Option (Expr × Value) → Option (Assignment × Value)
set c none = none
set c (some (e, echo)) = some (record { target = c; value = e }, echo)

abbrev local_time_layout : String
local_time_layout = "2006-01-02T15:04:05"

abbrev local_time_short_layout : String
local_time_short_layout = "2006-01-02T15:04"

abbrev local_time_milli_layout : String
local_time_milli_layout = "2006-01-02T15:04:05.000"

abbrev date_layout : String
date_layout = "2006-01-02"

abbrev time_of_day_layout : String
time_of_day_layout = "15:04"

abbrev or_else : Option String → Option String → Option String
or_else none other = other
or_else (some t) other = some t

-- The parsers. An explicit null becomes NULL.
unfoldable pub parse_text : Value → Option (Expr × Value)
parse_text null = some (Sql.null, null)
parse_text (str s) = some (text s, str s)
parse_text _ = none

unfoldable pub parse_str : String → Value → Option (Expr × Value)
parse_str fallback (str s) =
    let kept = if s == "" && not (fallback == "") then fallback else s in some (text kept, str kept)
parse_str fallback _ = none

unfoldable pub parse_bool : Value → Option (Expr × Value)
parse_bool (bool b) = some (boolean b, bool b)
parse_bool _ = none

unfoldable pub parse_num : Value → Option (Expr × Value)
parse_num null = some (Sql.null, null)
parse_num (num n) = some (cast (number n) "numeric", num n)
parse_num _ = none

unfoldable pub parse_uuid : Value → Option (Expr × Value)
parse_uuid null = some (Sql.null, null)
parse_uuid (str s) = if s == "" then some (Sql.null, null) else some (as_uuid s, str s)
parse_uuid _ = none

-- The parsers of times share their shape: `read` is the call of `time.Parse`, `echo` the value sent
-- back.
abbrev time_or_none : (String → String) → (String → Value) → Option String → Option (Expr × Value)
time_or_none stored echo none = none
time_or_none stored echo (some t) = some (Sql.time (stored t), echo t)

abbrev parse_instant :
    (String → Option String) → (String → String) → (String → Value) → Value → Option (Expr × Value)
parse_instant read stored echo null = some (Sql.null, null)
parse_instant read stored echo (str s) =
    if s == "" then some (Sql.null, null) else time_or_none stored echo (read s)
parse_instant read stored echo _ = none

-- `%02d`.
unfoldable pub two_digits : ℕ → String
unfolding itoa
two_digits n = if ltb n 10 then "0" +++ itoa n else itoa n

module _ {S T : Type 0} where
  -- `cell`: one parse feeds the assignment and the value.
  unfoldable pub cell : SqlColumn → String → (Value → Option (Expr × Value)) → Column S T
  cell c kind parse = record {
    proj = some (column c);
    assign = some λ v. set c (parse v);
    value = some parse;
    decode = none;
    wire = wire_of kind;
    load = none;
    save = none;
    satellite = none;
  }

  -- `ReadOnly`.
  unfoldable pub read_only : Projection → Column S T
  read_only p = record {
    proj = some p;
    assign = none;
    value = none;
    decode = none;
    wire = wire_of kind_any;
    load = none;
    save = none;
    satellite = none;
  }

  -- `Text`, `Str`, `Bool`, `Num` and `UUID`.
  unfoldable pub text_cell : SqlColumn → Column S T
  unfolding cell
  text_cell c = cell c kind_string parse_text

  unfoldable pub str_cell : SqlColumn → String → Column S T
  unfolding cell
  str_cell c fallback = cell c kind_string (parse_str fallback)

  unfoldable pub bool_cell : SqlColumn → Column S T
  unfolding cell
  bool_cell c = cell c kind_bool parse_bool

  unfoldable pub num_cell : SqlColumn → Column S T
  unfolding cell parse_num
  num_cell c = cell c kind_number parse_num

  unfoldable pub uuid_cell : SqlColumn → Column S T
  unfolding cell
  uuid_cell c = cell c kind_string parse_uuid

  -- `Deferred`.
  unfoldable pub deferred_cell : SqlColumn → (String → Value → Tx T Value) → Column S T
  deferred_cell c save = record {
    proj = some (column c);
    assign = some λ v. only_null v;
    value = none;
    decode = none;
    wire = wire_of kind_any;
    load = none;
    save = some save;
    satellite = none;
  }
    where
      only_null : Value → Option (Assignment × Value)
      only_null null = set c (some (Sql.null, null))
      only_null _ = none

module _ (lib : Library) where
  unfoldable pub parse_local_time : String → Option String
  parse_local_time s = or_else (lib.parse_time local_time_layout s) (
      or_else (lib.parse_time local_time_short_layout s) (lib.parse_time local_time_milli_layout s))

  -- The decoder of a wall clock and of a date.
  abbrev decode_layout : String → Scanned → Value
  decode_layout layout (Sql.time t) = str (lib.format_time layout t)
  decode_layout layout s = lib.as_any s

  abbrev decode_time_of_day : Scanned → Value
  decode_time_of_day (Sql.time_of_day none) = null
  decode_time_of_day (Sql.time_of_day (some micros)) =
      str (two_digits (micros / 3600000000) +++ ":" +++ two_digits (micros % 3600000000 / 60000000))
  decode_time_of_day s = lib.as_any s

  -- `json.Unmarshal` of a non-empty document; a broken one is nil.
  abbrev document_or_nil : String → Value
  document_or_nil raw =
      if raw == "" then null else elim (lib.unmarshal raw) [ none ↦ null | some v ↦ v ]

  unfoldable pub decode_json : Scanned → Value
  decode_json Sql.null = null
  decode_json (Sql.bytes raw) = document_or_nil raw
  decode_json (Sql.other (str raw)) = document_or_nil raw
  decode_json (Sql.other v) = v
  decode_json s = lib.as_any s

  -- `expr` of `JSONEditable`.
  unfoldable pub parse_json : Value → Option (Expr × Value)
  parse_json null = some (Sql.null, null)
  parse_json v = elim (lib.marshal v) [ none ↦ none | some raw ↦ some (cast (text raw) "jsonb", v) ]

  module _ {S T : Type 0} where
    -- `JSON`.
    unfoldable pub json : Projection → Column S T
    unfolding read_only
    json p = record (read_only p) { decode = some decode_json }

    -- `JSONEditable`.
    unfoldable pub json_editable : SqlColumn → Column S T
    unfolding json
    json_editable c = record (json (column c)) {
      assign = some λ v. set c (parse_json v);
      value = some parse_json;
    }

    -- `Time`, `TimeLocal`, `Date` and `TimeOfDay`.
    unfoldable pub time_cell : SqlColumn → Column S T
    unfolding cell
    time_cell c =
        cell c kind_string
          (parse_instant (lib.parse_time rfc3339) (λ t. t) (λ t. normalize lib (Sql.time t)))

    unfoldable pub time_local_cell : SqlColumn → Column S T
    unfolding cell
    time_local_cell c =
        record (cell c kind_string (
          parse_instant parse_local_time (λ t. t)
            (λ t. str (lib.format_time local_time_layout t)))) {
              decode = some (decode_layout local_time_layout);
            }

    unfoldable pub date_cell : SqlColumn → Column S T
    unfolding cell
    date_cell c =
        record (cell c kind_string (
          parse_instant (lib.parse_time date_layout) lib.utc
            λ t. str (lib.format_time date_layout t))) { decode = some (decode_layout date_layout) }

    unfoldable pub time_of_day_cell : SqlColumn → Column S T
    unfolding cell
    time_of_day_cell c =
        record (cell c kind_string (
          parse_instant (lib.parse_time time_of_day_layout) (λ t. t)
            λ t. str (lib.format_time time_of_day_layout t))) { decode = some decode_time_of_day }
