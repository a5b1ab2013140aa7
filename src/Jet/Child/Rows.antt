-- ===== src/Jet/Child/Rows.antt =====
-- A list of objects in a child table (`ChildRows` and `KeyedChildRows` of adapter/erjet/child.go).
pub mod Write
pub mod Owned
use editrig_go.Base.{
  ℕ, suc, Bool, true, false, not, ◌||◌, ◌&&◌, Option, none, some, List, [], ◌∷◌, ◌++◌, String, ◌==◌,
  if◌then◌else◌, is_some, is_empty, mem_text, length, nat_eq,
}
use editrig_go.Text.{◌+++◌}
use editrig_go.Text.Decimal.{itoa}
use editrig_go.Map.{lookup, insert}
use editrig_go.Json.{Value, Data, arr, obj, str, items, of_items, of_members}
use editrig_go.Errors.{plain}
use editrig_go.Decl.{Set}
use editrig_go.Jet.Sql
use editrig_go.Jet.Sql.{
  SqlColumn, Cond, Projection, Statement, Scanned, Database, Ran, ok, failed, crashed, ◌>>→◌,
  Reader, column, computed, text_not_in, both,
}
use editrig_go.Jet.Values.{Library, normalize, normalize_identifier, text_or_empty}
use editrig_go.Jet.Column.{Column, writable, is_satellite}
use editrig_go.Jet.Table.{
  Table, Named, new_table, id_field, table_column, table_order, split_keys, projs_of,
}
use editrig_go.Jet.Table.Row.{decode_row, load_satellites}
use editrig_go.Jet.Satellite.{as_patch}
use editrig_go.Jet.Child.{ChildTable, scope, child_rows, append_at}

-- `id, _ := item[idField].(string)`.
abbrev pub id_in : Option Value → String
id_in none = ""
id_in (some v) = text_or_empty v

-- The test of `resolveIDs`: the id is one of this parent's, and no earlier element has it.
unfoldable pub is_reused : List String → List String → String → Bool
is_reused owned used id = not (id == "") && mem_text id owned && not (mem_text id used)

abbrev pub new_or_empty : Option (String → ℕ → String) → String → ℕ → String
new_or_empty none key i = ""
new_or_empty (some new) key i = new key i

-- `resolveIDs`: the element at position `i` reuses its id or gets a new one; what is no object has
-- none. `used` are the ids of the earlier elements.
abbrev pub resolve_id :
    Option (String → ℕ → String) → List String → List String → String → ℕ → String → String
resolve_id new owned used key i id = if is_reused owned used id then id else new_or_empty new key i

abbrev pub now_used : List String → List String → String → List String
now_used owned used id = if is_reused owned used id then id ∷ used else used

unfoldable pub resolve_ids :
    Option (String → ℕ → String)
    → String
    → List String
    → String
    → ℕ
    → List String
    → List Value
    → List String
resolve_ids new field owned key i used [] = []
resolve_ids new field owned key i used (v ∷ vs) = elim (as_patch (some v)) [
  | none ↦ "" ∷ resolve_ids new field owned key (suc i) used vs
  | some item ↦
      resolve_id new owned used key i (id_in (lookup field item))
      ∷ resolve_ids new field owned key (suc i) (now_used owned used (id_in (lookup field item))) vs
]

-- `deleteExceptSQL`.
unfoldable pub kept_ids : List String → List String
kept_ids [] = []
kept_ids (id ∷ ids) = let rest = kept_ids ids in if id == "" then rest else id ∷ rest

unfoldable pub delete_except_sql : ChildTable → String → String → List String → Statement
unfolding kept_ids scope
delete_except_sql ct parent key keep = Statement.delete ct.src (
    if is_empty (kept_ids keep)
    then scope ct parent key
    else both (scope ct parent key) (text_not_in ct.id (kept_ids keep)))

-- A column of the row, for a projection that is one.
abbrev pub column_of : Option Projection → Option SqlColumn
column_of (some (column c)) = some c
column_of _ = none

module _ {S T : Type 0} where
  -- The check of one cell in `childElement`: a writable one has both halves of the write and a
  -- column.
  unfoldable pub is_element_cell : String → Named S T → Bool
  is_element_cell field c =
      c.name == field
      || is_satellite c.column
      || not (writable c.column)
      || is_some c.column.value && is_some c.column.assign && is_some (column_of c.column.proj)

  unfoldable pub are_element_cells : String → List (Named S T) → Bool
  are_element_cells field [] = true
  are_element_cells field (c ∷ cols) = is_element_cell field c && are_element_cells field cols

  unfoldable pub has_satellites : String → List (Named S T) → Bool
  has_satellites field [] = false
  has_satellites field (c ∷ cols) =
      not (c.name == field) && is_satellite c.column || has_satellites field cols

  -- The cell of the id is read-only and has no decoder.
  abbrev is_id_cell : Option (Column S T) → Bool
  is_id_cell none = true
  is_id_cell (some c) = not (writable c) && not (is_some c.decode)

  abbrev pub element_of : ChildTable → Table S T → Option String → Option (Table S T × String)
  element_of ct inner none = none
  element_of ct inner (some field) =
      if is_id_cell (table_column inner field)
        && are_element_cells field inner.cols
        && not (has_satellites field inner.cols && not (is_some ct.new_id))
      then some (inner, field)
      else none

  -- `childElement`; a panic is `none`.
  unfoldable pub child_element : ChildTable → Set (Column S T) → Option (Table S T × String)
  unfolding is_element_cell new_table
  child_element ct d = let inner = new_table d ct.src ct.id in element_of ct inner (id_field inner)

module _ (lib : Library) {S T : Type 0} (db : Database S T) where
  -- `rowItem`.
  unfoldable pub row_item :
      Table S T → String → List String → List String → List Scanned → Reader S Value
  row_item inner field cols sats vals s =
      if nat_eq (length vals) (length cols)
      then (let item = decode_row lib inner cols vals [] in
          load_satellites lib db inner sats (id_in (lookup field item)) item s >>→ λ full.
          ok (obj (of_members full)))
      else failed (
          plain (
            "erjet: "
            +++ itoa (length vals)
            +++ " values for "
            +++ itoa (length cols)
            +++ " element columns"))

  unfoldable pub items_of_rows :
      Table S T → String → List String → List String → List (List Scanned) → Reader S (List Value)
  unfolding row_item
  items_of_rows inner field cols sats [] s = ok []
  items_of_rows inner field cols sats (vals ∷ rows) s =
      row_item inner field cols sats vals s >>→ λ item.
      items_of_rows inner field cols sats rows s >>→ λ rest. ok (item ∷ rest)

  abbrev rows_with :
      ChildTable → Option (List Projection) → String → String → Reader S (List (List Scanned))
  rows_with ct none parent key s = crashed
  rows_with ct (some projs) parent key s = child_rows lib db ct projs parent key s

  unfoldable pub read_rows : ChildTable → Table S T → String → String → Reader S Value
  unfolding items_of_rows
  read_rows ct inner field parent s =
      let (cols, sats) = split_keys inner (table_order inner) in
      rows_with ct (projs_of inner cols) parent "" s >>→ λ rows.
      items_of_rows inner field cols sats rows s >>→ λ vs. ok (arr (of_items vs))

  -- The loop of `readKeyedRows`: a wrong number of values is an error, no key leaves the row out.
  unfoldable pub collect_rows :
      Table S T → String → List String → List String → List (List Scanned) → Data → Reader S Data
  unfolding row_item
  collect_rows inner field cols sats [] out s = ok out
  collect_rows inner field cols sats ([] ∷ rows) out s = failed (
      plain (
        "erjet: 0 values for "
        +++ itoa (length cols)
        +++ " element columns plus the partition key"))
  collect_rows inner field cols sats ((k ∷ vals) ∷ rows) out s =
      if nat_eq (length vals) (length cols)
      then (if text_or_empty (normalize lib k) == ""
          then collect_rows inner field cols sats rows out s
          else (row_item inner field cols sats vals s >>→ λ item.
              collect_rows inner field cols sats rows
                (append_at (text_or_empty (normalize lib k)) item out) s))
      else failed (
          plain (
            "erjet: "
            +++ itoa (suc (length vals))
            +++ " values for "
            +++ itoa (length cols)
            +++ " element columns plus the partition key"))

  abbrev cons_key : SqlColumn → Option (List Projection) → Option (List Projection)
  cons_key key_col none = none
  cons_key key_col (some projs) = some (column key_col ∷ projs)

  unfoldable pub read_keyed_rows :
      ChildTable → SqlColumn → Table S T → String → String → Reader S Value
  unfolding collect_rows
  read_keyed_rows ct key_col inner field parent s =
      let (cols, sats) = split_keys inner (table_order inner) in
      rows_with ct (cons_key key_col (projs_of inner cols)) parent "" s >>→ λ rows.
      collect_rows inner field cols sats rows [] s >>→ λ out. ok (obj (of_members out))

  -- `ownedIDs`.
  unfoldable pub owned_of : List (List Scanned) → List String
  owned_of [] = []
  owned_of ((v ∷ []) ∷ rows) =
      let rest = owned_of rows in
      if normalize_identifier lib v == "" then rest else normalize_identifier lib v ∷ rest
  owned_of (vals ∷ rows) = owned_of rows

  unfoldable pub owned_ids : ChildTable → String → String → Reader S (List String)
  unfolding owned_of
  owned_ids ct parent key s =
      child_rows lib db ct (column ct.id ∷ []) parent key s >>→ λ rows. ok (owned_of rows)
