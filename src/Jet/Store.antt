-- ===== src/Jet/Store.antt =====
-- adapter/erjet/store.go and change.go: `Load`, `Save` and `Delete` of one table.
pub mod Save
pub mod Stays
pub mod Atomic
pub mod Contract
pub mod Reports
use editrig_go.Base.{
  Bool, false, not, ◌||◌, ◌&&◌, Option, none, some, List, [], ◌∷◌, ◌++◌, String, ◌==◌,
  if◌then◌else◌, is_some, is_empty, mem_text,
}
use editrig_go.Text.{◌+++◌}
use editrig_go.Map.{lookup, insert, has}
use editrig_go.Json.{Value, Data, null}
use editrig_go.Errors.{Failure, not_found, wrapped}
use editrig_go.Jet.Sql.{
  SqlColumn, Assignment, Statement, Ran, ok, failed, crashed, Reader, Tx, Database, ◌>>=◌, pure,
  fail, crash, exec, reading,
}
use editrig_go.Jet.Values.{Library}
use editrig_go.Jet.Column.{KeyedSatellite, is_satellite, assign_of}
use editrig_go.Jet.Table.{
  Table, Named, Written, names, new_values_onto, table_order, assignments, deferred, update_sql,
  delete_sql,
}
use editrig_go.Jet.Table.Row.{row, exists}
use editrig_go.Jet.Satellite.{keyed_groups, handled_names, write_groups, read_keyed}

-- `Change`.
pub record Change : Type 0 where
  pub field : String
  pub old : Value
  pub new : Value

-- How a call of `OnWrite` ends, with the state that it leaves.
pub data Reported (S : Type 0) : Type 0 where
  returned : S → Reported S
  panicked : S → Reported S

-- `Store`. A `Create` hook that is nil panics; `OnWrite` works on the state after the commit.
pub record Store (S T : Type 0) : Type 0 where
  pub table : Table S T
  pub touch : Option SqlColumn
  pub create : Option (Data → Tx T (String × List Change))
  pub on_write : Option (String → List Change → Bool → S → Reported S)

-- `changed` and `newVals`, and `assignsBack`.
pub record Progress : Type 0 where
  pub changed : List String
  pub new_values : Data
  pub back : List Assignment

-- How the work before the commit ends: with nothing to write, or with what was written and what
-- stood there before.
pub data Work : Type 0 where
  nothing : String → Work
  wrote : String → Progress → Option Data → Work

-- `mergeHookChanges`.
unfoldable pub merge_hook_changes : List Change → List String → Data → List String × Data
merge_hook_changes [] changed values = (changed, values)
merge_hook_changes (c ∷ hook) changed values =
    if has c.field values
    then merge_hook_changes hook changed values
    else merge_hook_changes hook (changed ++ (c.field ∷ [])) (insert c.field c.new values)

-- `m[k]`, nil for a missing key.
abbrev pub value_at : String → Data → Value
value_at k m = elim (lookup k m) [ none ↦ null | some v ↦ v ]

abbrev pub fields_of : List Written → List String
fields_of [] = []
fields_of (w ∷ ws) = w.field ∷ fields_of ws

abbrev pub targets_of : List Written → List Assignment
targets_of [] = []
targets_of (w ∷ ws) = w.target ∷ targets_of ws

-- The changes of a create.
unfoldable pub created_changes : List String → Data → List Change
created_changes [] values = []
created_changes (k ∷ ks) values =
    record { field = k; old = null; new = value_at k values } ∷ created_changes ks values

-- `conflictErr`: 23503 and 23502 are the constraint codes.
abbrev is_constraint : Option String → Bool
is_constraint none = false
is_constraint (some code) = code == "23503" || code == "23502"

abbrev code_text : Option String → String
code_text none = ""
code_text (some code) = code

module _ (lib : Library) where
  unfoldable pub diff : List String → Data → Data → List Change
  diff [] before after = []
  diff (k ∷ ks) before after =
      let rest = diff ks before after in
      if lib.sprint (value_at k before) == lib.sprint (value_at k after)
      then rest
      else record { field = k; old = value_at k before; new = value_at k after } ∷ rest

  unfoldable pub conflict_err : Failure → Failure
  conflict_err e =
      if is_constraint (lib.pg_code e)
      then wrapped ("erjet: constraint conflict (" +++ code_text (lib.pg_code e) +++ ")") e
      else e
