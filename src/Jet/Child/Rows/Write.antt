-- ===== src/Jet/Child/Rows/Write.antt =====
-- The writes of `ChildRows` and `KeyedChildRows`.
use editrig_go.Base.{
  ℕ, suc, not, ◌||◌, Option, none, some, List, [], ◌∷◌, ◌++◌, String, ◌==◌, if◌then◌else◌,
}
use editrig_go.Map.{lookup}
use editrig_go.Json.{Value, Data, null}
use editrig_go.Ui.Wire.{kind_items, kind_map}
use editrig_go.Decl.{Set}
use editrig_go.Jet.Sql.{
  SqlColumn, Expr, Assignment, Statement, Database, Ran, ok, failed, crashed, ◌>>→◌, Tx, ◌>>=◌,
  pure, fail, crash, exec, reading,
}
use editrig_go.Jet.Values.{Library}
use editrig_go.Jet.Column.{Column, writable, is_satellite}
use editrig_go.Jet.Table.{Table, Named, deferred}
use editrig_go.Jet.Satellite.{cast_string, as_patch}
use editrig_go.Jet.Store.{value_at}
use editrig_go.Jet.Child.{
  ChildTable, write_order, key_columns, key_values, as_list, sorted_map_keys, satellite_cell,
}
use editrig_go.Jet.Child.Rows.{
  column_of, child_element, resolve_ids, delete_except_sql, owned_ids, read_rows, read_keyed_rows,
}

-- What one cell adds to `cols`, `vals` and `assigns`.
pub record RowCell : Type 0 where
  pub col : SqlColumn
  pub value : Expr
  pub assign : Assignment

abbrev row_columns : List RowCell → List SqlColumn
row_columns [] = []
row_columns (c ∷ cs) = c.col ∷ row_columns cs

abbrev row_values : List RowCell → List Expr
row_values [] = []
row_values (c ∷ cs) = c.value ∷ row_values cs

abbrev row_assigns : List RowCell → List Assignment
row_assigns [] = []
row_assigns (c ∷ cs) = c.assign ∷ row_assigns cs

-- A value that one half does not parse is left out; a projection that is no column panics.
abbrev row_cell :
    Option SqlColumn → Option (Expr × Value) → Option (Assignment × Value) → Ran (List RowCell)
row_cell none (some (e, echo)) (some (a, echo')) = crashed
row_cell (some c) (some (e, echo)) (some (a, echo')) =
    ok (record { col = c; value = e; assign = a } ∷ [])
row_cell c _ _ = ok []

abbrev parsed_cell :
    Option SqlColumn
    → Option (Value → Option (Expr × Value))
    → Option (Value → Option (Assignment × Value))
    → Value
    → Ran (List RowCell)
parsed_cell c (some value) (some assign) v = row_cell c (value v) (assign v)
parsed_cell c _ _ v = crashed

abbrev id_columns : ChildTable → String → List SqlColumn
id_columns ct id = if id == "" then [] else ct.id ∷ []

abbrev id_values : ChildTable → String → List Expr
id_values ct id = if id == "" then [] else cast_string id ct.id_type ∷ []

abbrev upsert_cells : ChildTable → String → String → String → ℕ → List RowCell → Statement
upsert_cells ct parent key id pos cells =
    let cols =
      id_columns ct id ++ (ct.parent ∷ ct.order ∷ (key_columns key ct.key ++ row_columns cells)) in
    let vals =
      id_values ct id
      ++ (cast_string parent ct.parent_type
          ∷ write_order pos
          ∷ (key_values ct.key_type key ct.key ++ row_values cells)) in
    if id == ""
    then Statement.insert ct.src cols vals
    else Statement.upsert ct.src cols vals (ct.id ∷ [])
        (record { target = ct.order; value = write_order pos } ∷ row_assigns cells)

module _ {S T : Type 0} where
  abbrev present_cell : Column S T → Option Value → Ran (List RowCell)
  present_cell c none = ok []
  present_cell c (some v) = parsed_cell (column_of c.proj) c.value c.assign v

  -- The loop of `upsertRowSQL`.
  unfoldable pub row_cells : String → List (Named S T) → Data → Ran (List RowCell)
  row_cells field [] item = ok []
  row_cells field (c ∷ cols) item =
      let here =
        if c.name == field || is_satellite c.column || not (writable c.column)
        then ok []
        else present_cell c.column (lookup c.name item) in
      here >>→ λ cs. row_cells field cols item >>→ λ rest. ok (cs ++ rest)

  unfoldable pub upsert_row_sql :
      ChildTable → Table S T → String → String → String → String → ℕ → Data → Ran Statement
  unfolding row_cells write_order cast_string
  upsert_row_sql ct inner field parent key id pos item =
      row_cells field inner.cols item >>→ λ cells. ok (upsert_cells ct parent key id pos cells)

module _ (lib : Library) {S T : Type 0} (db : Database S T) where
  abbrev pub exec_ran : Ran Statement → Tx T (Unit {0})
  exec_ran (ok q) = exec db q
  exec_ran (failed e) = fail e
  exec_ran crashed = crash

  abbrev pub save_cell : Option (String → Value → Tx T Value) → String → Value → Tx T Value
  save_cell none id v = crash
  save_cell (some save) id v = save id v

  -- The nested second phase.
  unfoldable pub save_nested : String → Data → List (Named S T) → Tx T (Unit {0})
  save_nested id item [] = pure tt
  save_nested id item (c ∷ cols) =
      save_cell c.column.save id (value_at c.name item) >>= λ v. save_nested id item cols

  -- The loop of `writeRows`: the elements with their ids; what is no object takes no position.
  abbrev pub write_row :
      ChildTable → Table S T → String → String → String → String → ℕ → Data → Tx T (Unit {0})
  write_row ct inner field parent key id pos item =
      exec_ran (upsert_row_sql ct inner field parent key id pos item) >>= λ _.
      save_nested id item (deferred inner item)

  unfoldable pub write_each :
      ChildTable
      → Table S T
      → String
      → String
      → String
      → ℕ
      → List String
      → List Value
      → Tx T (Unit {0})
  unfolding upsert_row_sql save_nested
  write_each ct inner field parent key pos (id ∷ ids) (v ∷ vs) = elim (as_patch (some v)) [
    | none ↦ write_each ct inner field parent key pos ids vs
    | some item ↦ write_row ct inner field parent key id pos item >>= λ _.
        write_each ct inner field parent key (suc pos) ids vs
  ]
  write_each ct inner field parent key pos _ _ = pure tt

  unfoldable pub write_rows :
      ChildTable → Table S T → String → String → String → List Value → Tx T (Unit {0})
  unfolding delete_except_sql
  write_rows ct inner field parent key vs = reading db (owned_ids lib db ct parent key) >>= λ owned.
      (let ids = resolve_ids ct.new_id field owned key 0 [] vs in
        exec db (delete_except_sql ct parent key ids) >>= λ _.
        write_each ct inner field parent key 0 ids vs)

  abbrev pub save_rows : ChildTable → Table S T → String → String → Option (List Value) → Tx T Value
  save_rows ct inner field parent none = pure null
  save_rows ct inner field parent (some vs) = write_rows ct inner field parent "" vs >>= λ _.
      reading db (read_rows lib db ct inner field parent)

  -- The loop of `KeyedChildRows`.
  abbrev pub write_under :
      ChildTable → Table S T → String → String → String → Option (List Value) → Tx T (Unit {0})
  write_under ct inner field parent key none = pure tt
  write_under ct inner field parent key (some vs) =
      if key == "" then pure tt else write_rows ct inner field parent key vs

  unfoldable pub write_partitions :
      ChildTable → Table S T → String → String → Data → List String → Tx T (Unit {0})
  unfolding write_rows
  write_partitions ct inner field parent patch [] = pure tt
  write_partitions ct inner field parent patch (key ∷ ks) =
      write_under ct inner field parent key (as_list (lookup key patch)) >>= λ _.
      write_partitions ct inner field parent patch ks

  abbrev pub save_keyed_rows :
      ChildTable → SqlColumn → Table S T → String → String → Option Data → Tx T Value
  save_keyed_rows ct key_col inner field parent none = pure null
  save_keyed_rows ct key_col inner field parent (some patch) =
      write_partitions ct inner field parent patch (sorted_map_keys patch) >>= λ _.
      reading db (read_keyed_rows lib db ct key_col inner field parent)

  -- `ChildRows` and `KeyedChildRows`; a panic at declaration time is `none`.
  abbrev pub rows_cell :
      ChildTable → Option SqlColumn → Option (Table S T × String) → Option (Column S T)
  rows_cell ct none (some (inner, field)) = some (
      satellite_cell kind_items "" (λ parent. read_rows lib db ct inner field parent)
        (λ parent v. save_rows ct inner field parent (as_list (some v))))
  rows_cell ct _ _ = none

  abbrev pub keyed_rows_cell :
      ChildTable → Option SqlColumn → Option (Table S T × String) → Option (Column S T)
  keyed_rows_cell ct (some key_col) (some (inner, field)) = some (
      satellite_cell kind_map kind_items
        (λ parent. read_keyed_rows lib db ct key_col inner field parent)
        (λ parent v. save_keyed_rows ct key_col inner field parent (as_patch (some v))))
  keyed_rows_cell ct _ _ = none

  unfoldable pub child_rows_cell : ChildTable → Set (Column S T) → Option (Column S T)
  unfolding write_rows read_rows child_element
  child_rows_cell ct d = rows_cell ct ct.key (child_element ct d)

  unfoldable pub keyed_child_rows : ChildTable → Set (Column S T) → Option (Column S T)
  unfolding write_partitions read_keyed_rows sorted_map_keys child_element
  keyed_child_rows ct d = keyed_rows_cell ct ct.key (child_element ct d)
