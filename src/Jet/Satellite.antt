-- ===== src/Jet/Satellite.antt =====
-- adapter/erjet/satellite.go: a cell whose value is a map in a side table, one row for each key.
pub mod Groups
pub mod Patches
use editrig_go.Base.{
  Bool, true, false, not, ◌&&◌, ◌||◌, Option, none, some, List, [], ◌∷◌, ◌++◌, String, ◌==◌,
  if◌then◌else◌, is_some, is_empty, mem_text,
}
use editrig_go.Text.{◌+++◌}
use editrig_go.Text.Sort.{sort_strings}
use editrig_go.Map.{Map, lookup, insert, keys}
use editrig_go.Json.{Value, Data, null, str, obj, members, of_members}
use editrig_go.Ui.Wire.{kind_map, kind_string}
use editrig_go.Jet.Sql
use editrig_go.Jet.Sql.{
  SqlColumn, Expr, Assignment, Cond, Statement, Query, Scanned, Ran, ok, ◌>>→◌, Tx, Reader, ◌>>=◌,
  pure, exec, reading, each, Database, column, text, cast, text_eq, equals, both,
}
use editrig_go.Jet.Values.{Library, normalize, text_or_empty}
use editrig_go.Jet.Column.{KeyedTable, ClearPolicy, KeyedSatellite, Column}
use editrig_go.Jet.Table.{Named}

-- `keyedColumnWrite`.
pub record KeyedColumnWrite : Type 0 where
  pub col : SqlColumn
  pub clear : ClearPolicy
  pub patch : Data

-- `group` of `writeKeyedGroups`.
pub record Group : Type 0 where
  pub table : KeyedTable
  pub writes : List KeyedColumnWrite

unfoldable pub clear_delete_row : ClearPolicy
clear_delete_row = record { delete_row = true; value = none }

unfoldable pub clear_set_null : ClearPolicy
clear_set_null = record { delete_row = false; value = none }

unfoldable pub clear_set : Expr → ClearPolicy
clear_set empty = record { delete_row = false; value = some empty }

unfoldable pub group_key : KeyedTable → String
group_key kt = kt.src.schema +++ "." +++ kt.src.name

unfoldable pub cast_string : String → String → Expr
cast_string value sql_type = if sql_type == "" then text value else cast (text value) sql_type

unfoldable pub parent_eq : KeyedTable → String → Cond
parent_eq kt parent = text_eq kt.parent parent

unfoldable pub key_eq : KeyedTable → String → Cond
unfolding cast_string
key_eq kt key = equals kt.key (cast_string key kt.key_type)

abbrev or_null : Option Expr → Expr
or_null none = Sql.null
or_null (some e) = e

unfoldable pub clear_sql : KeyedTable → SqlColumn → String → String → ClearPolicy → Statement
unfolding parent_eq key_eq
clear_sql kt col parent key clear =
    let here = both (parent_eq kt parent) (key_eq kt key) in
    if clear.delete_row
    then Statement.delete kt.src here
    else Statement.update kt.src (record { target = col; value = or_null clear.value } ∷ []) here

-- `value, _ := w.patch[key].(string)`.
abbrev patch_text : Option Value → String
patch_text none = ""
patch_text (some v) = text_or_empty v

abbrev pub text_at : String → KeyedColumnWrite → String
text_at key w = patch_text (lookup key w.patch)

-- The three lists that the loop of `upsertManySQL` fills.
abbrev columns_of : List KeyedColumnWrite → List SqlColumn
columns_of [] = []
columns_of (w ∷ ws) = w.col ∷ columns_of ws

abbrev values_at : String → List KeyedColumnWrite → List Expr
values_at key [] = []
values_at key (w ∷ ws) = text (text_at key w) ∷ values_at key ws

abbrev assigns_at : String → List KeyedColumnWrite → List Assignment
assigns_at key [] = []
assigns_at key (w ∷ ws) =
    record { target = w.col; value = text (text_at key w) } ∷ assigns_at key ws

unfoldable pub upsert_many_sql : KeyedTable → String → String → List KeyedColumnWrite → Statement
unfolding cast_string
upsert_many_sql kt parent key writes =
    Statement.upsert kt.src (kt.parent ∷ kt.key ∷ columns_of writes)
      (cast_string parent kt.parent_type ∷ cast_string key kt.key_type ∷ values_at key writes)
      (kt.key ∷ kt.parent ∷ []) (assigns_at key writes)

-- The two lists of `writeMany` for one key: what is cleared, by null, by the empty text and by
-- anything that is no text, and what is set.
abbrev pub is_present : String → KeyedColumnWrite → Bool
is_present key w = is_some (lookup key w.patch)

unfoldable pub to_clear : String → List KeyedColumnWrite → List KeyedColumnWrite
to_clear key [] = []
to_clear key (w ∷ ws) =
    let rest = to_clear key ws in if is_present key w && text_at key w == "" then w ∷ rest else rest

unfoldable pub to_set : String → List KeyedColumnWrite → List KeyedColumnWrite
to_set key [] = []
to_set key (w ∷ ws) =
    let rest = to_set key ws in
    if is_present key w && not (text_at key w == "") then w ∷ rest else rest

-- The statements for one key.
abbrev clears : KeyedTable → String → String → List KeyedColumnWrite → List Statement
clears kt parent key [] = []
clears kt parent key (w ∷ ws) = clear_sql kt w.col parent key w.clear ∷ clears kt parent key ws

unfoldable pub key_statements :
    KeyedTable → String → List KeyedColumnWrite → String → List Statement
unfolding clear_sql upsert_many_sql to_clear to_set
key_statements kt parent writes key =
    clears kt parent key (to_clear key writes)
    ++ (if is_empty (to_set key writes)
        then []
        else upsert_many_sql kt parent key (to_set key writes) ∷ [])

-- `keySet` and its sorted list.
unfoldable pub add_keys : List String → List String → List String
add_keys [] known = known
add_keys (k ∷ ks) known = add_keys ks (if mem_text k known then known else k ∷ known)

unfoldable pub key_set : List KeyedColumnWrite → List String → List String
unfolding add_keys
key_set [] known = known
key_set (w ∷ ws) known = key_set ws (add_keys (keys w.patch) known)

abbrev pub patched_keys : List KeyedColumnWrite → List String
patched_keys writes = sort_strings (key_set writes [])

-- `patch, ok := in[nc.Name].(map[string]any)`.
abbrev pub as_patch : Option Value → Option Data
as_patch (some (obj ms)) = some (members ms)
as_patch _ = none

-- `groups[key]`, with `order`: the groups stand in the order of their first cell.
abbrev pub add_to : KeyedSatellite → Data → Option Group → Group
add_to sc patch none = record {
  table = sc.table;
  writes = record { col = sc.col; clear = sc.clear; patch = patch } ∷ [];
}
add_to sc patch (some g) = record g {
  writes = g.writes ++ (record { col = sc.col; clear = sc.clear; patch = patch } ∷ []);
}

unfoldable pub add_write : KeyedSatellite → Data → Map Group → Map Group
unfolding group_key
add_write sc patch groups =
    insert (group_key sc.table) (add_to sc patch (lookup (group_key sc.table) groups)) groups

abbrev pub add_cell : Option KeyedSatellite → Option Data → Map Group → Map Group
add_cell none patch groups = groups
add_cell (some sc) none groups = groups
add_cell (some sc) (some patch) groups = add_write sc patch groups

module _ {S T : Type 0} where
  unfoldable pub keyed_groups : List (Named S T) → Data → Map Group → Map Group
  unfolding add_write
  keyed_groups [] input groups = groups
  keyed_groups (c ∷ cols) input groups =
      keyed_groups cols input (add_cell c.column.satellite (as_patch (lookup c.name input)) groups)

  -- `handled`.
  unfoldable pub handled_names : List (Named S T) → Data → List String
  handled_names [] input = []
  handled_names (c ∷ cols) input =
      let rest = handled_names cols input in
      if is_some c.column.satellite && is_some (as_patch (lookup c.name input))
      then c.name ∷ rest
      else rest

module _ (lib : Library) {S T : Type 0} (db : Database S T) where
  -- One scanned row of `read`.
  abbrev read_pair : List Scanned → Data → Data
  read_pair (k ∷ v ∷ []) out =
      let key = text_or_empty (normalize lib k) in
      let value = text_or_empty (normalize lib v) in
      if key == "" || value == "" then out else insert key (str value) out
  read_pair vals out = out

  unfoldable pub read_pairs : List (List Scanned) → Data → Data
  read_pairs [] out = out
  read_pairs (vals ∷ rows) out = read_pairs rows (read_pair vals out)

  unfoldable pub read_keyed : KeyedTable → SqlColumn → String → Reader S Value
  unfolding parent_eq
  read_keyed kt col parent s =
      db.query
        (Query.select (column kt.key ∷ column col ∷ []) kt.src (parent_eq kt parent) (kt.key ∷ []))
        s
      >>→ λ rows. ok (obj (of_members (read_pairs rows [])))

  -- `writeMany`, `write` and `writeKeyedGroups`.
  unfoldable pub write_many : KeyedTable → String → List KeyedColumnWrite → Tx T (Unit {0})
  unfolding key_statements key_set
  write_many kt parent writes =
      each (λ key. each (exec db) (key_statements kt parent writes key)) (patched_keys writes)

  unfoldable pub write_groups : String → Map Group → Tx T (Unit {0})
  unfolding write_many
  write_groups parent [] = pure tt
  write_groups parent ((key, g) ∷ groups) =
      write_many g.table parent g.writes >>= λ _. write_groups parent groups

  -- The `save` of a cell: a value that is no map writes nothing.
  abbrev pub save_patch : KeyedSatellite → String → Option Data → Tx T Value
  save_patch sc parent none = pure null
  save_patch sc parent (some patch) =
      write_many sc.table parent (record { col = sc.col; clear = sc.clear; patch = patch } ∷ [])
      >>= λ _. reading db (read_keyed sc.table sc.col parent)

  unfoldable pub keyed_strings : KeyedTable → SqlColumn → ClearPolicy → Column S T
  unfolding read_keyed write_many
  keyed_strings kt col clear =
      let sc : KeyedSatellite = record { table = kt; col = col; clear = clear } in
      record {
        proj = none;
        assign = none;
        value = none;
        decode = none;
        wire = record { kind = kind_map; elem = kind_string };
        load = some λ parent. read_keyed kt col parent;
        save = some λ parent v. save_patch sc parent (as_patch (some v));
        satellite = some sc;
      }
