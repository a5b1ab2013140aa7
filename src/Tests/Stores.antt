-- ===== src/Tests/Stores.antt =====
-- Runs of the theorems on a store.
use editrig_go.Base.{
  ◌==◌, ◌⊎◌, ◌≡◌, refl, false, not, some, List, [], ◌∷◌, String, All, mem_text, ◌&&◌, ℕ, Option,
  none,
}
use editrig_go.Map.{lookup, insert, keys}
use editrig_go.Json.{str, null, Value, obj, member, end, arr, of_items}
use editrig_go.Jet.Sql
use editrig_go.Jet.Sql.{
  SqlTable, SqlColumn, Statement, Query, Scanned, Database, IsTransactional, Ran, ok, failed,
  crashed, is_ok, ok_inj, ◌>>=◌, continue, reading, each, exec, is_crashed,
}
use editrig_go.Jet.Column.{writable, is_satellite}
use editrig_go.Jet.Column.Cells.{text_cell, parse_text}
use editrig_go.Jet.Table.{
  Written, assignments_of, assigned, is_assigned, split_keys, deferred_of, find_column, is_deferred,
  names, projs_of, row_sql, update_sql,
}
use editrig_go.Jet.Satellite.{
  keyed_strings, clear_set_null, keyed_groups, write_groups, KeyedColumnWrite, to_clear, to_set,
}
use editrig_go.Jet.Store.Save.{save, finish, update_work, second_phase, update_if_any}
use editrig_go.Jet.Table.Row.{row, first_row, load_satellites, main_row, row_cols}
use editrig_go.Text.Sort.{sort_strings}
use editrig_go.Jet.Store.Atomic.{PanickedReport, save-keeps}
use editrig_go.Map.Laws.{HasDistinctKeys}
use editrig_go.Jet.Table.Phases.{FromPayload, assignments-FromPayload}
use editrig_go.Jet.Table.Total.{Readable, row-Runs}
use editrig_go.Jet.Satellite.Groups.{writes_to, asked_writes, IsNamed, writes_to-keyed_groups}
use editrig_go.Jet.Satellite.Patches.{IsParted, to_set-to_clear}
use editrig_go.Jet.Store.{diff}
use editrig_go.Jet.Store.Reports.{IsChange, changed_fields, differs, diff_exact}
use editrig_go.Jet.Rels.{RelationValue, decoded, id_slice, any_slice}
use editrig_go.Jet.Rels.Ids.{AreNewIds, given_texts, id_slice-AreNewIds}
use editrig_go.Jet.Child.Rows.{resolve_ids}
use editrig_go.Jet.Child.Rows.Owned.{AreAllowed, AreOwnedOnce, resolve_ids_sound}
use editrig_go.Jet.Child.{ChildTable, delete_all_sql}
use editrig_go.Jet.Child.Values.{replace_values}
use editrig_go.Jet.Child.Positions.{inserts_from, parsed_values, replace_values-each}
use editrig_go.Fixtures.Posts.{
  toy_library, Log, answer_of, toy_db, toy_law, title_column, title_cell, post_store,
  post_store-Stays, one_post, stored_post, post_input,
}

save-keeps_example :
    ((save toy_library toy_db post_store (some "7") post_input one_post).1 ≡ one_post)
    ⊎ PanickedReport toy_db post_store
        (save toy_library toy_db post_store (some "7") post_input one_post)
unfolding save finish update_work ◌>>=◌ continue assignments_of assigned is_assigned writable
    text_cell parse_text is_satellite lookup insert keys keyed_strings reading row split_keys
    keyed_groups write_groups each exec second_phase update_if_any first_row load_satellites
    main_row row_cols deferred_of find_column is_deferred names projs_of row_sql update_sql
    sort_strings
save-keeps_example =
    save-keeps toy_library toy_law post_store (some "7") post_input one_post post_store-Stays refl

abbrev lamp_written : List Written
lamp_written =
    record {
      field = "title";
      target = record { target = title_column; value = Sql.text "Lamp" };
      value = str "Lamp";
    }
    ∷ []

assignments-FromPayload_example : All (FromPayload post_store.table.cols post_input) (
    record {
      field = "title";
      target = record { target = title_column; value = Sql.text "Lamp" };
      value = str "Lamp";
    }
    ∷ [])
unfolding assignments_of assigned is_assigned writable text_cell is_satellite lookup keyed_strings
    parse_text
assignments-FromPayload_example = assignments-FromPayload post_store.table.cols post_input _ refl

title-Readable : Readable post_store.table "title"
unfolding find_column text_cell is_satellite
title-Readable = (title_cell, refl, record { load = λ e. absurd (cc) })

never-crashed : (q : Query) (s : Log) → is_crashed (answer_of q s) ≡ false
never-crashed q [] = refl
never-crashed (Query.select ps t c order) (x ∷ log) = refl
never-crashed (Query.exists col t c) (x ∷ log) = refl

row-Runs_example :
    is_crashed (row toy_library toy_db post_store.table ("title" ∷ []) "7" one_post) ≡ false
row-Runs_example =
    row-Runs toy_library toy_db post_store.table never-crashed ("title" ∷ []) "7" one_post refl
      (title-Readable, tt)

abbrev two_writes : List KeyedColumnWrite
two_writes =
    record { col = title_column; clear = clear_set_null; patch = ("de", str "Leuchte") ∷ [] }
    ∷ record { col = title_column; clear = clear_set_null; patch = ("de", null) ∷ [] }
    ∷ []

to_set-to_clear_example :
    IsParted "de" two_writes (to_clear "de" two_writes) (to_set "de" two_writes)
to_set-to_clear_example = to_set-to_clear "de" two_writes

writes_to-keyed_groups_example :
    ((name : String)
      → writes_to name (keyed_groups post_store.table.cols post_input [])
        ≡ asked_writes name post_store.table.cols post_input)
    × IsNamed (keyed_groups post_store.table.cols post_input [])
    × HasDistinctKeys (keyed_groups post_store.table.cols post_input [])
writes_to-keyed_groups_example = writes_to-keyed_groups post_store.table.cols post_input

diff_exact_example :
    All
      (IsChange toy_library stored_post post_input ("title" ∷ []))
      (diff toy_library ("title" ∷ []) stored_post post_input)
    × ((k : String)
        → mem_text k (changed_fields (diff toy_library ("title" ∷ []) stored_post post_input))
          ≡ (mem_text k ("title" ∷ []) && differs toy_library stored_post post_input k))
diff_exact_example = diff_exact toy_library stored_post post_input ("title" ∷ [])

abbrev two_elements : List Value
two_elements =
    obj (member "id" (str "own") end)
    ∷ obj (member "id" (str "own") end)
    ∷ obj (member "id" (str "foreign") end)
    ∷ []

abbrev numbered : Option (String → ℕ → String)
numbered = some λ key i. "new"

resolve_ids_sound_example :
    AreAllowed numbered ""
      ("own" ∷ [])
      0
      (resolve_ids numbered "id" ("own" ∷ []) "" 0 [] two_elements)
    × AreOwnedOnce ("own" ∷ []) [] (resolve_ids numbered "id" ("own" ∷ []) "" 0 [] two_elements)
resolve_ids_sound_example =
    resolve_ids_sound ("own" ∷ []) numbered "" "id" two_elements (refl, λ i. refl)

abbrev given_ids : RelationValue
given_ids = decoded (arr (of_items (str "a" ∷ str "" ∷ str "a" ∷ [])))

id_slice-AreNewIds_example :
    ((t : String) → mem_text t ("a" ∷ []) ≡ (mem_text t (given_texts given_ids) && not (t == "")))
    × AreNewIds [] ("a" ∷ [])
    × (id_slice (decoded (any_slice ("a" ∷ []))) ≡ some ("a" ∷ []))
unfolding id_slice
id_slice-AreNewIds_example = id_slice-AreNewIds given_ids ("a" ∷ []) refl

abbrev tags : ChildTable
tags = record {
  src = record { schema = "public"; name = "post_tags" };
  id = record { table = "post_tags"; name = "id" };
  parent = record { table = "post_tags"; name = "post_id" };
  order = record { table = "post_tags"; name = "_order" };
  key = none;
  parent_type = "uuid";
  key_type = "";
  id_type = "";
  new_id = none;
}

abbrev tag_column : SqlColumn
tag_column = record { table = "post_tags"; name = "tag" }

abbrev tag_values : List Value
tag_values = str "a" ∷ obj end ∷ str "b" ∷ []

replace_values-each_example :
    replace_values toy_library toy_db tags parse_text tag_column "7" "" tag_values
      (one_post, one_post)
    ≡ each
        (exec toy_db)
        (delete_all_sql tags "7" ""
          ∷ inserts_from tags tag_column "7" "" 0 (parsed_values parse_text tag_values))
        (one_post, one_post)
replace_values-each_example =
    replace_values-each toy_library toy_db tags tag_column parse_text "7" "" tag_values
      (one_post, one_post)
