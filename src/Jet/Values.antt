-- ===== src/Jet/Values.antt =====
-- adapter/erjet/normalize.go: the wire shape of a scanned value.
use Prim.Native.String.{[]}
use editrig_go.Base.{
  ℕ, suc, ◌/◌, ◌%◌, ltb, nat_eq, if◌then◌else◌, Option, none, some, List, [], ◌∷◌, String,
}
use editrig_go.Text.{◌+++◌}
use editrig_go.Text.Decimal.{digit, itoa}
use editrig_go.Json.{Value, null, str, num}
use editrig_go.Config.{ℤ, pos, negsuc}
use editrig_go.Errors.{Failure}
use editrig_go.Jet.Sql
use editrig_go.Jet.Sql.{Scanned}

-- The parts of Go's library and of pgx that the adapter calls: a scanned value as the `any` that it
-- is, `float64` of an integer, `fmt.Sprint`, `json.Marshal`, `json.Unmarshal`, `time.Parse` and
-- `Format` under a layout, `UTC`, the code of a `*pgconn.PgError`, and the text that an error wraps.
pub record Library : Type 0 where
  pub as_any : Scanned → Value
  pub float_of_int : ℤ → String
  pub sprint : Value → String
  pub marshal : Value → Option String
  pub unmarshal : String → Option Value
  pub parse_time : String → String → Option String
  pub format_time : String → String → String
  pub utc : String → String
  pub pg_code : Failure → Option String

abbrev pub rfc3339 : String
rfc3339 = "2006-01-02T15:04:05Z07:00"

abbrev hex_digit : ℕ → String
hex_digit n =
    if ltb n 10
    then digit n
    else if nat_eq n 10
    then "a"
    else if nat_eq n 11
    then "b"
    else if nat_eq n 12
    then "c"
    else if nat_eq n 13
    then "d"
    else if nat_eq n 14
    then "e"
    else "f"

-- `%x` of a byte slice.
unfoldable pub hex : List ℕ → String
hex [] = ""
hex (b ∷ bs) = hex_digit (b / 16) +++ hex_digit (b % 16) +++ hex bs

-- `fmt.Sprintf("%x-%x-%x-%x-%x", x[0:4], x[4:6], x[6:8], x[8:10], x[10:16])` of 16 bytes.
unfoldable pub uuid_text : List ℕ → String
unfolding hex
uuid_text (a ∷ b ∷ c ∷ d ∷ e ∷ f ∷ g ∷ h ∷ i ∷ j ∷ rest) =
    hex (a ∷ b ∷ c ∷ d ∷ [])
    +++ "-"
    +++ hex (e ∷ f ∷ [])
    +++ "-"
    +++ hex (g ∷ h ∷ [])
    +++ "-"
    +++ hex (i ∷ j ∷ [])
    +++ "-"
    +++ hex rest
uuid_text short = hex short

abbrev number_or_null : Option String → Value
number_or_null none = null
number_or_null (some f) = num f

-- `strconv.FormatInt(n, 10)`.
unfoldable pub format_int : ℤ → String
format_int (pos n) = itoa n
format_int (negsuc n) = "-" +++ itoa (suc n)

-- `s, _ := v.(string)`.
abbrev pub text_or_empty : Value → String
text_or_empty (str s) = s
text_or_empty _ = ""

module _ (lib : Library) where
  unfoldable pub normalize : Scanned → Value
  unfolding uuid_text
  normalize Sql.null = null
  normalize (Sql.time t) = str (lib.format_time rfc3339 (lib.utc t))
  normalize (Sql.numeric f) = number_or_null f
  normalize (Sql.uuid bs) = str (uuid_text bs)
  normalize (Sql.integer n) = num (lib.float_of_int n)
  normalize (Sql.other v) = v
  normalize s = lib.as_any s

  unfoldable pub normalize_identifier : Scanned → String
  unfolding normalize format_int
  normalize_identifier (Sql.other (str s)) = s
  normalize_identifier (Sql.integer n) = format_int n
  normalize_identifier s = text_or_empty (normalize s)
