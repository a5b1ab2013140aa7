-- ===== src/Jet/Child/Values.antt =====
-- A list of values in a child table (`ChildValues` and `KeyedChildValues` of adapter/erjet/child.go).
use editrig_go.Base.{ℕ, suc, Option, none, some, List, [], ◌∷◌, String, ◌==◌, if◌then◌else◌}
use editrig_go.Map.{lookup}
use editrig_go.Json.{Value, Data, null, arr, obj, of_items, of_members}
use editrig_go.Ui.Wire.{kind_list, kind_map}
use editrig_go.Jet.Sql.{
  SqlColumn, Expr, Projection, Statement, Scanned, Database, ok, ◌>>→◌, Reader, Tx, ◌>>=◌, pure,
  exec, reading, column,
}
use editrig_go.Jet.Values.{Library, normalize, text_or_empty}
use editrig_go.Jet.Column.{Column}
use editrig_go.Jet.Table.Row.{decode_or}
use editrig_go.Jet.Satellite.{as_patch}
use editrig_go.Jet.Child.{
  ChildTable, delete_all_sql, insert_value_sql, append_at, sorted_map_keys, as_list, satellite_cell,
  child_rows,
}

module _ (lib : Library) {S T : Type 0} (db : Database S T) where
  abbrev decoded : Column S T → List (List Scanned) → List Value
  decoded cell [] = []
  decoded cell ((v ∷ []) ∷ rows) = decode_or lib cell.decode v ∷ decoded cell rows
  decoded cell (row ∷ rows) = decoded cell rows

  unfoldable pub read_values :
      ChildTable → Column S T → Projection → String → String → Reader S Value
  unfolding child_rows
  read_values ct cell proj parent key s = child_rows lib db ct (proj ∷ []) parent key s >>→ λ rows.
      ok (arr (of_items (decoded cell rows)))

  -- The loop of `readKeyedValues`: a row with no key is left out.
  unfoldable pub collect_values : Column S T → List (List Scanned) → Data → Data
  collect_values cell [] out = out
  collect_values cell ((k ∷ v ∷ []) ∷ rows) out =
      let key = text_or_empty (normalize lib k) in
      collect_values cell rows
        (if key == "" then out else append_at key (decode_or lib cell.decode v) out)
  collect_values cell (row ∷ rows) out = collect_values cell rows out

  unfoldable pub read_keyed_values :
      ChildTable → SqlColumn → Column S T → Projection → String → Reader S Value
  unfolding child_rows
  read_keyed_values ct key_col cell proj parent s =
      child_rows lib db ct (column key_col ∷ proj ∷ []) parent "" s >>→ λ rows.
      ok (obj (of_members (collect_values cell rows [])))

  -- The loop of `replaceValues`: an element that does not parse takes no position.
  abbrev pub insert_then : Option Statement → Tx T (Unit {0}) → Tx T (Unit {0}) → Tx T (Unit {0})
  insert_then none skipped next = skipped
  insert_then (some q) skipped next = exec db q >>= λ _. next

  unfoldable pub insert_values :
      ChildTable
      → (Value → Option (Expr × Value))
      → SqlColumn
      → String
      → String
      → ℕ
      → List Value
      → Tx T (Unit {0})
  unfolding insert_value_sql
  insert_values ct parse target parent key pos [] = pure tt
  insert_values ct parse target parent key pos (v ∷ vs) =
      insert_then (insert_value_sql ct parse target parent key v pos)
        (insert_values ct parse target parent key pos vs)
        (insert_values ct parse target parent key (suc pos) vs)

  unfoldable pub replace_values :
      ChildTable
      → (Value → Option (Expr × Value))
      → SqlColumn
      → String
      → String
      → List Value
      → Tx T (Unit {0})
  unfolding delete_all_sql
  replace_values ct parse target parent key vs =
      exec db (delete_all_sql ct parent key) >>= λ _. insert_values ct parse target parent key 0 vs

  abbrev pub save_values :
      ChildTable
      → Column S T
      → (Value → Option (Expr × Value))
      → SqlColumn
      → String
      → Option (List Value)
      → Tx T Value
  save_values ct cell parse target parent none = pure null
  save_values ct cell parse target parent (some vs) =
      replace_values ct parse target parent "" vs >>= λ _.
      reading db (read_values ct cell (column target) parent "")

  -- The loop of `KeyedChildValues`: an empty key and what is no list are left alone.
  abbrev pub replace_under :
      ChildTable
      → (Value → Option (Expr × Value))
      → SqlColumn
      → String
      → String
      → Option (List Value)
      → Tx T (Unit {0})
  replace_under ct parse target parent key none = pure tt
  replace_under ct parse target parent key (some vs) =
      if key == "" then pure tt else replace_values ct parse target parent key vs

  unfoldable pub replace_partitions :
      ChildTable
      → (Value → Option (Expr × Value))
      → SqlColumn
      → String
      → Data
      → List String
      → Tx T (Unit {0})
  replace_partitions ct parse target parent patch [] = pure tt
  replace_partitions ct parse target parent patch (key ∷ ks) =
      replace_under ct parse target parent key (as_list (lookup key patch)) >>= λ _.
      replace_partitions ct parse target parent patch ks

  abbrev pub save_keyed_values :
      ChildTable
      → SqlColumn
      → Column S T
      → (Value → Option (Expr × Value))
      → SqlColumn
      → String
      → Option Data
      → Tx T Value
  save_keyed_values ct key_col cell parse target parent none = pure null
  save_keyed_values ct key_col cell parse target parent (some patch) =
      replace_partitions ct parse target parent patch (sorted_map_keys patch) >>= λ _.
      reading db (read_keyed_values ct key_col cell (column target) parent)

  -- `ChildValues` and `KeyedChildValues`; the panics on the cell and on the key column are `none`.
  abbrev pub values_cell :
      ChildTable
      → Column S T
      → Option (Value → Option (Expr × Value))
      → Option Projection
      → Option SqlColumn
      → Option (Column S T)
  values_cell ct cell (some parse) (some (column target)) none = some (
      satellite_cell kind_list cell.wire.kind
        (λ parent. read_values ct cell (column target) parent "")
        (λ parent v. save_values ct cell parse target parent (as_list (some v))))
  values_cell ct cell _ _ _ = none

  abbrev pub keyed_values_cell :
      ChildTable
      → Column S T
      → Option (Value → Option (Expr × Value))
      → Option Projection
      → Option SqlColumn
      → Option (Column S T)
  keyed_values_cell ct cell (some parse) (some (column target)) (some key_col) = some (
      satellite_cell kind_map kind_list
        (λ parent. read_keyed_values ct key_col cell (column target) parent)
        (λ parent v. save_keyed_values ct key_col cell parse target parent (as_patch (some v))))
  keyed_values_cell ct cell _ _ _ = none

  unfoldable pub child_values : ChildTable → Column S T → Option (Column S T)
  unfolding read_values replace_values
  child_values ct cell = values_cell ct cell cell.value cell.proj ct.key

  unfoldable pub keyed_child_values : ChildTable → Column S T → Option (Column S T)
  unfolding read_keyed_values replace_partitions sorted_map_keys
  keyed_child_values ct cell = keyed_values_cell ct cell cell.value cell.proj ct.key
