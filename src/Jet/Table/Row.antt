-- ===== src/Jet/Table/Row.antt =====
-- The reads of table.go: a row with its satellites, and tests for a row.
use editrig_go.Base.{
  Bool, false, Option, none, some, List, [], ◌∷◌, String, if◌then◌else◌, is_empty, length, nat_eq,
}
use editrig_go.Text.{◌+++◌}
use editrig_go.Text.Decimal.{itoa}
use editrig_go.Map.{insert}
use editrig_go.Json.{Value, Data, str, bool}
use editrig_go.Errors.{plain}
use editrig_go.Jet.Sql
use editrig_go.Jet.Sql.{
  SqlTable, SqlColumn, Projection, Assignment, Cond, Statement, Query, Scanned, Ran, ok, failed,
  crashed, ◌>>→◌, Reader, Database, column, text_eq, text_ne, equals, both, text, same_column,
}
use editrig_go.Jet.Values.{Library, normalize, normalize_identifier}
use editrig_go.Jet.Column.{Column}
use editrig_go.Jet.Table.{Table, where_id, row_sql, is_id, table_column, split_keys}

-- `found, _ := vals[0].(bool)`.
abbrev as_bool : Scanned → Bool
as_bool (Sql.other (bool b)) = b
as_bool _ = false

-- The end of a query with one value: no row is false.
abbrev pub one_bool : List (List Scanned) → Ran Bool
one_bool [] = ok false
one_bool ((v ∷ []) ∷ rows) = ok (as_bool v)
one_bool (vals ∷ rows) =
    failed (plain ("erjet: exists returned " +++ itoa (length vals) +++ " values"))

-- One scanned value: the cell's own decoder, or `Normalize`.
abbrev pub decode_or : Library → Option (Scanned → Value) → Scanned → Value
decode_or lib none v = normalize lib v
decode_or lib (some decode) v = decode v

-- `c, _ := t.Column(k)` and `c.load(…)`; a nil function panics.
abbrev pub load_with : {S : Type 0} → Option (String → Reader S Value) → String → Reader S Value
load_with none id s = crashed
load_with (some load) id s = load id s

module _ {S T : Type 0} where
  module _ (lib : Library) where
    unfoldable pub decode_cell : Table S T → Option (Column S T) → Scanned → Value
    decode_cell t none v = normalize lib v
    decode_cell t (some c) v =
        if is_id t.id c.proj then str (normalize_identifier lib v) else decode_or lib c.decode v

    unfoldable pub decode_row : Table S T → List String → List Scanned → Data → Data
    decode_row t (k ∷ ks) (v ∷ vs) out =
        decode_row t ks vs (insert k (decode_cell t (table_column t k) v) out)
    decode_row t _ _ out = out

    -- The first row, if there is one.
    unfoldable pub first_row : Table S T → List String → List (List Scanned) → Ran (Option Data)
    first_row t keys [] = ok none
    first_row t keys (vals ∷ rows) =
        if nat_eq (length vals) (length keys)
        then ok (some (decode_row t keys vals []))
        else failed (
            plain (
              "erjet: "
              +++ itoa (length vals)
              +++ " values for "
              +++ itoa (length keys)
              +++ " keys"))

    module _ (db : Database S T) where
      unfoldable pub row_cols : Table S T → List String → String → Reader S (Option Data)
      row_cols t keys id s = elim (row_sql t keys id) [
        | none ↦ crashed
        | some q ↦ db.query q s >>→ first_row t keys
      ]

      unfoldable pub exists : Table S T → String → Reader S Bool
      exists t id s = db.query (Query.exists t.id t.src (where_id t id)) s >>→ one_bool

      unfoldable pub taken_by_other : Table S T → SqlColumn → String → String → Reader S Bool
      taken_by_other t col value self s =
          db.query (Query.exists t.id t.src (both (equals col (text value)) (text_ne t.id self))) s
          >>→ one_bool

      abbrev pub load_cell : Option (Column S T) → String → Reader S Value
      load_cell none id s = crashed
      load_cell (some c) id s = load_with c.load id s

      unfoldable pub load_satellites : Table S T → List String → String → Data → Reader S Data
      load_satellites t [] id out s = ok out
      load_satellites t (k ∷ ks) id out s =
          load_cell (table_column t k) id s >>→ λ v. load_satellites t ks id (insert k v out) s

      -- The part of the row in the main table; no row is `none`.
      unfoldable pub main_row : Table S T → List String → String → Reader S (Option Data)
      main_row t cols id s =
          if is_empty cols
          then (exists t id s >>→ λ found. ok (if found then some [] else none))
          else row_cols t cols id s

      abbrev pub with_satellites :
          Table S T → List String → String → Option Data → Reader S (Option Data)
      with_satellites t sats id none s = ok none
      with_satellites t sats id (some out) s =
          load_satellites t sats id out s >>→ λ row. ok (some row)

      unfoldable pub row : Table S T → List String → String → Reader S (Option Data)
      row t keys id s =
          let (cols, sats) = split_keys t keys in
          if is_empty sats
          then row_cols t cols id s
          else (main_row t cols id s >>→ λ out. with_satellites t sats id out s)
