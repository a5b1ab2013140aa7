-- ===== src/Jet/Child.antt =====
-- adapter/erjet/child.go: an ordered list in a child table, of
-- values (Values) or of objects (Rows).
pub mod Rows
pub mod Values
pub mod Stays
pub mod Positions
use editrig_go.Base.{
  ℕ, suc, Bool, true, false, not, ◌||◌, ◌&&◌, Option, none, some, List, [], ◌∷◌, ◌++◌, String, ◌==◌,
  if◌then◌else◌, is_some, is_empty, mem_text,
}
use editrig_go.Text.Sort.{sort_strings}
use editrig_go.Map.{lookup, insert, keys}
use editrig_go.Json.{Value, Data, null, arr, obj, items, of_items, members, of_members}
use editrig_go.Ui.Wire.{kind_list, kind_map}
use editrig_go.Jet.Sql
use editrig_go.Jet.Sql.{
  SqlTable, SqlColumn, Expr, Projection, Cond, Statement, Query, Scanned, Database, Ran, ok,
  crashed, ◌>>→◌, Reader, Tx, ◌>>=◌, pure, exec, reading, column, computed, int, text_eq, equals,
  both,
}
use editrig_go.Jet.Values.{Library, normalize, text_or_empty}
use editrig_go.Jet.Column.{Column}
use editrig_go.Jet.Table.Row.{decode_or}
use editrig_go.Jet.Satellite.{cast_string, as_patch}

-- `ChildTable`, with the three columns that `requireColumns` demands. `NewID` gives the id of the
-- element at a position of the list of a partition.
pub record ChildTable : Type 0 where
  pub src : SqlTable
  pub id : SqlColumn
  pub parent : SqlColumn
  pub order : SqlColumn
  pub key : Option SqlColumn
  pub parent_type : String
  pub key_type : String
  pub id_type : String
  pub new_id : Option (String → ℕ → String)

abbrev scoped : String → String → Cond → Option SqlColumn → Cond
scoped key_type key here none = here
scoped key_type key here (some col) =
    if key == "" then here else both here (equals col (cast_string key key_type))

unfoldable pub scope : ChildTable → String → String → Cond
unfolding cast_string
scope ct parent key = scoped ct.key_type key (text_eq ct.parent parent) ct.key

-- `selectSQL`; no projections panic.
unfoldable pub select_sql : ChildTable → List Projection → String → String → Option Query
unfolding scope
select_sql ct projs parent key =
    if is_empty projs
    then none
    else some (Query.select projs ct.src (scope ct parent key) (ct.order ∷ ct.id ∷ []))

-- `writeOrder`: positions count from 1.
unfoldable pub write_order : ℕ → Expr
write_order i = int (suc i)

-- The key column and its value, for a table with partitions and a key.
abbrev pub key_columns : String → Option SqlColumn → List SqlColumn
key_columns key none = []
key_columns key (some col) = if key == "" then [] else col ∷ []

abbrev pub key_values : String → String → Option SqlColumn → List Expr
key_values key_type key none = []
key_values key_type key (some col) = if key == "" then [] else cast_string key key_type ∷ []

abbrev pub new_id_columns : ChildTable → Option (String → ℕ → String) → List SqlColumn
new_id_columns ct none = []
new_id_columns ct (some new) = ct.id ∷ []

abbrev pub new_id_values : ChildTable → String → ℕ → Option (String → ℕ → String) → List Expr
new_id_values ct key i none = []
new_id_values ct key i (some new) = cast_string (new key i) ct.id_type ∷ []

unfoldable pub delete_all_sql : ChildTable → String → String → Statement
unfolding scope
delete_all_sql ct parent key = Statement.delete ct.src (scope ct parent key)

-- `insertValueSQL`, with the four shapes in one: `parse` is the cell's `value`, `target` its column.
unfoldable pub insert_value_sql :
    ChildTable
    → (Value → Option (Expr × Value))
    → SqlColumn
    → String
    → String
    → Value
    → ℕ
    → Option Statement
unfolding write_order cast_string
insert_value_sql ct parse target parent key v i = elim (parse v) [
  | none ↦ none
  | some (e, echo) ↦ some (
      Statement.insert ct.src
        (new_id_columns ct ct.new_id
          ++ (ct.parent ∷ ct.order ∷ (key_columns key ct.key ++ (target ∷ []))))
        (new_id_values ct key i ct.new_id
          ++ (cast_string parent ct.parent_type
              ∷ write_order i
              ∷ (key_values ct.key_type key ct.key ++ (e ∷ [])))))
]

-- `list, _ := out[key].([]any)`.
abbrev pub list_at : Option Value → List Value
list_at (some (arr vs)) = items vs
list_at _ = []

abbrev pub append_at : String → Value → Data → Data
append_at key v out = insert key (arr (of_items (list_at (lookup key out) ++ (v ∷ [])))) out

-- `sortedMapKeys`.
unfoldable pub sorted_map_keys : Data → List String
sorted_map_keys m = sort_strings (keys m)

-- `v.([]any)` under a key of a patch.
abbrev pub as_list : Option Value → Option (List Value)
as_list (some (arr vs)) = some (items vs)
as_list _ = none

-- A cell in a table of its own.
module _ {S T : Type 0} where
  abbrev pub satellite_cell :
      String → String → (String → Reader S Value) → (String → Value → Tx T Value) → Column S T
  satellite_cell kind elem load save = record {
    proj = none;
    assign = none;
    value = none;
    decode = none;
    wire = record { kind = kind; elem = elem };
    load = some load;
    save = some save;
    satellite = none;
  }

module _ (lib : Library) {S T : Type 0} (db : Database S T) where
  -- `rows`.
  unfoldable pub child_rows :
      ChildTable → List Projection → String → String → Reader S (List (List Scanned))
  unfolding select_sql
  child_rows ct projs parent key s = elim (select_sql ct projs parent key) [
    | none ↦ crashed
    | some q ↦ db.query q s
  ]
