-- ===== src/Jet/Table.antt =====
-- adapter/erjet/table.go: the ordered columns of one table, which rows are read with and partial
-- updates are built from.
pub mod Row
pub mod Phases
pub mod Mentions
pub mod Once
pub mod Total
use editrig_go.Base.{
  Bool, true, false, not, ◌||◌, ◌&&◌, Option, none, some, List, [], ◌∷◌, ◌++◌, map, String, ◌==◌,
  if◌then◌else◌, is_some, is_empty, length, nat_eq,
}
use editrig_go.Text.{◌+++◌}
use editrig_go.Text.Decimal.{itoa}
use editrig_go.Map.{lookup, insert}
use editrig_go.Json.{Value, Data, str, bool, null}
use editrig_go.Errors.{Failure, plain}
use editrig_go.Decl.{Set, Entry, none_left, with_entry, entry}
use editrig_go.Jet.Sql
use editrig_go.Jet.Sql.{
  SqlTable, SqlColumn, Projection, Assignment, Cond, Statement, Query, Scanned, Ran, ok, failed,
  crashed, ◌>>→◌, Reader, Database, column, text_eq, text_ne, equals, both, text, same_column,
}
use editrig_go.Jet.Values.{Library, normalize, normalize_identifier}
use editrig_go.Jet.Column.{Column, writable, is_satellite}

-- `in[k] != nil`.
abbrev pub is_set : Option Value → Bool
is_set none = false
is_set (some null) = false
is_set (some v) = true

-- One turn of the loop of `Assignments`: `assigns`, `changed` and `newVals` each get an entry.
pub record Written : Type 0 where
  pub field : String
  pub target : Assignment
  pub value : Value

abbrev pub new_values_onto : List Written → Data → Data
new_values_onto [] m = m
new_values_onto (w ∷ ws) m = new_values_onto ws (insert w.field w.value m)

-- `Named` and `Table`.
pub record Named (S T : Type 0) : Type 0 where
  pub name : String
  pub column : Column S T

pub record Table (S T : Type 0) : Type 0 where
  pub src : SqlTable
  pub id : SqlColumn
  pub cols : List (Named S T)

-- The cell projects onto the primary key.
unfoldable pub is_id : SqlColumn → Option Projection → Bool
is_id id (some (column c)) = same_column c id
is_id id _ = false

abbrev pub cons_projection : Option Projection → Option (List Projection) → Option (List Projection)
cons_projection none rest = none
cons_projection (some p) none = none
cons_projection (some p) (some ps) = some (p ∷ ps)

abbrev touched : Option SqlColumn → List Assignment
touched none = []
touched (some c) = record { target = c; value = Sql.now } ∷ []

-- `nc.Column.assign(v)`: a value that does not parse writes nothing, and a nil function panics.
abbrev pub written_by : String → Option (Assignment × Value) → List Written
written_by name none = []
written_by name (some (a, echo)) = record { field = name; target = a; value = echo } ∷ []

abbrev pub assign_value :
    String → Option (Value → Option (Assignment × Value)) → Value → Ran (List Written)
assign_value name none v = crashed
assign_value name (some assign) v = ok (written_by name (assign v))

module _ {S T : Type 0} where
  abbrev cells_of : Set (Column S T) → List (Named S T)
  cells_of none_left = []
  cells_of (with_entry (entry name group col ui items) s) =
      record { name = name; column = col } ∷ cells_of s

  unfoldable pub new_table : Set (Column S T) → SqlTable → SqlColumn → Table S T
  new_table d src id = record { src = src; id = id; cols = cells_of d }

  unfoldable pub find_column : List (Named S T) → String → Option (Column S T)
  find_column [] name = none
  find_column (c ∷ cols) name = if c.name == name then some c.column else find_column cols name

  abbrev pub table_column : Table S T → String → Option (Column S T)
  table_column t name = find_column t.cols name

  -- `names` of store.go.
  unfoldable pub names : List (Named S T) → List String
  names [] = []
  names (c ∷ cols) = c.name ∷ names cols

  -- `Order`.
  abbrev pub table_order : Table S T → List String
  table_order t = names t.cols

  unfoldable pub id_field_of : SqlColumn → List (Named S T) → Option String
  id_field_of id [] = none
  id_field_of id (c ∷ cols) = if is_id id c.column.proj then some c.name else id_field_of id cols

  abbrev pub id_field : Table S T → Option String
  id_field t = id_field_of t.id t.cols

  unfoldable pub where_id : Table S T → String → Cond
  where_id t id = text_eq t.id id

  abbrev pub is_outside : Option (Column S T) → Bool
  is_outside none = false
  is_outside (some c) = is_satellite c

  -- `split`: the column-backed keys, then the satellites.
  unfoldable pub split_keys : Table S T → List String → List String × List String
  split_keys t [] = ([], [])
  split_keys t (k ∷ ks) =
      let (cols, sats) = split_keys t ks in
      if is_outside (table_column t k) then (cols, k ∷ sats) else (k ∷ cols, sats)

  -- `c, _ := t.Column(k)` and `c.proj`; an unknown key has the zero cell.
  abbrev pub projection_of : Option (Column S T) → Option Projection
  projection_of none = none
  projection_of (some c) = c.proj

  -- `projsOf`; the panic is `none`.
  unfoldable pub projs_of : Table S T → List String → Option (List Projection)
  projs_of t [] = some []
  projs_of t (k ∷ ks) = cons_projection (projection_of (table_column t k)) (projs_of t ks)

  -- `RowSQL`; `projs[0]` of no projections panics.
  unfoldable pub row_sql : Table S T → List String → String → Option Query
  row_sql t keys id = elim (projs_of t keys) [
    | none ↦ none
    | some ps ↦ if is_empty ps then none else some (Query.select ps t.src (where_id t id) [])
  ]

  -- `UpdateSQL`; no assignments panic.
  unfoldable pub update_sql :
      Table S T → List Assignment → Option SqlColumn → String → Option Statement
  update_sql t assigns touch id =
      if is_empty assigns
      then none
      else some (Statement.update t.src (assigns ++ touched touch) (where_id t id))

  unfoldable pub delete_sql : Table S T → String → Statement
  delete_sql t id = Statement.delete t.src (where_id t id)

  -- The condition on one cell in `Assignments`: the key arrived and this phase writes it.
  unfoldable pub is_assigned : Column S T → Option Value → Bool
  is_assigned c v = not (not (writable c) || is_satellite c || is_some c.save && is_set v)

  abbrev pub assign_present : Named S T → Option Value → Ran (List Written)
  assign_present c none = ok []
  assign_present c (some v) = assign_value c.name c.column.assign v

  unfoldable pub assigned : Named S T → Data → Ran (List Written)
  assigned c input =
      if is_assigned c.column (lookup c.name input)
      then assign_present c (lookup c.name input)
      else ok []

  unfoldable pub assignments_of : List (Named S T) → Data → Ran (List Written)
  assignments_of [] input = ok []
  assignments_of (c ∷ cols) input =
      assigned c input >>→ λ ws. assignments_of cols input >>→ λ rest. ok (ws ++ rest)

  abbrev pub assignments : Table S T → Data → Ran (List Written)
  assignments t input = assignments_of t.cols input

  -- The condition on one cell in `Deferred`.
  unfoldable pub is_deferred : Column S T → Option Value → Bool
  is_deferred c v = is_some c.save && is_some v && not (not (is_set v) && not (is_satellite c))

  unfoldable pub deferred_of : List (Named S T) → Data → List (Named S T)
  deferred_of [] input = []
  deferred_of (c ∷ cols) input =
      let rest = deferred_of cols input in
      if is_deferred c.column (lookup c.name input) then c ∷ rest else rest

  abbrev pub deferred : Table S T → Data → List (Named S T)
  deferred t input = deferred_of t.cols input
