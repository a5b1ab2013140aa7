-- ===== src/Jet/Store/Save.antt =====
-- `Load`, `Save` and `Delete` of store.go, over the steps of a save.
use editrig_go.Base.{
  Bool, not, ◌&&◌, Option, none, some, List, [], ◌∷◌, ◌++◌, String, if◌then◌else◌, is_some,
  is_empty, mem_text,
}
use editrig_go.Map.{insert}
use editrig_go.Json.{Value, Data, null}
use editrig_go.Errors.{Failure, not_found}
use editrig_go.Jet.Sql.{
  Assignment, Statement, Ran, ok, failed, crashed, Reader, Tx, Database, ◌>>=◌, pure, fail, crash,
  exec, reading,
}
use editrig_go.Jet.Values.{Library}
use editrig_go.Jet.Column.{KeyedSatellite, is_satellite, assign_of}
use editrig_go.Jet.Table.{
  Named, Written, names, new_values_onto, table_order, assignments, deferred, update_sql,
  delete_sql,
}
use editrig_go.Jet.Table.Row.{row, exists}
use editrig_go.Jet.Satellite.{keyed_groups, handled_names, write_groups, read_keyed}
use editrig_go.Jet.Store.{
  Change, Store, Progress, Work, merge_hook_changes, value_at, fields_of, targets_of,
  created_changes, diff, conflict_err, nothing, wrote, Reported, returned, panicked,
}

module _ (lib : Library) {S T : Type 0} (db : Database S T) where
  -- `s.Table.UpdateSQL(…)` and `tx.Exec`, when there is something to set.
  abbrev pub exec_or_crash : Option Statement → Tx T (Unit {0})
  exec_or_crash none = crash
  exec_or_crash (some q) = exec db q

  unfoldable pub update_if_any : Store S T → List Assignment → String → Tx T (Unit {0})
  update_if_any st assigns id =
      if is_empty assigns then pure tt else exec_or_crash (update_sql st.table assigns st.touch id)

  -- The value of one deferred cell: read back if its group is written, else saved.
  abbrev pub read_back : Option KeyedSatellite → String → Tx T Value
  read_back none id = crash
  read_back (some sc) id = reading db (read_keyed lib db sc.table sc.col id)

  abbrev pub save_with : Option (String → Value → Tx T Value) → String → Value → Tx T Value
  save_with none id v = crash
  save_with (some save) id v = save id v

  unfoldable pub deferred_value : List String → String → Data → Named S T → Tx T Value
  deferred_value handled id input c =
      if mem_text c.name handled
      then read_back c.column.satellite id
      else save_with c.column.save id (value_at c.name input)

  -- What a value that was written adds; nil wrote nothing.
  abbrev added : Named S T → Value → Progress → List Assignment → Progress
  added c v p back = record {
    changed = p.changed ++ (c.name ∷ []);
    new_values = insert c.name v p.new_values;
    back = back;
  }

  abbrev pub assigned_back : Option Assignment → Named S T → Value → Progress → Tx T Progress
  assigned_back none c v p = crash
  assigned_back (some a) c v p = pure (added c v p (p.back ++ (a ∷ [])))

  unfoldable pub add_deferred : Named S T → Progress → Value → Tx T Progress
  add_deferred c p null = pure p
  add_deferred c p v =
      if is_satellite c.column
      then pure (added c v p p.back)
      else assigned_back (assign_of c.column v) c v p

  -- The loop over the deferred cells.
  unfoldable pub write_deferred :
      List String → String → Data → List (Named S T) → Progress → Tx T Progress
  write_deferred handled id input [] p = pure p
  write_deferred handled id input (c ∷ cols) p = deferred_value handled id input c >>= λ v.
      add_deferred c p v >>= λ p'. write_deferred handled id input cols p'

  -- The second phase, up to the commit.
  unfoldable pub second_phase : Store S T → String → Data → Progress → Option Data → Tx T Work
  second_phase st id input p before =
      write_groups lib db id (keyed_groups (deferred st.table input) input []) >>= λ _.
      write_deferred (handled_names (deferred st.table input) input) id input
        (deferred st.table input) p
      >>= λ q. update_if_any st q.back id >>= λ _. pure (wrote id q before)

  -- `v, err := f()` for a step outside the transaction's statements.
  abbrev lift : {A : Type 0} → Ran A → Tx T A
  lift r t = (r, t)

  abbrev pub create_with :
      Option (Data → Tx T (String × List Change)) → Data → Tx T (String × List Change)
  create_with none input = crash
  create_with (some create) input = create input

  unfoldable pub create_work : Store S T → Data → Tx T Work
  create_work st input = create_with st.create input >>= λ made.
      lift (assignments st.table input) >>= λ ws.
      (let (changed, values) = merge_hook_changes made.1 (fields_of ws) (new_values_onto ws []) in
        second_phase st made.0 input
          (record { changed = changed; new_values = values; back = targets_of ws }) none)

  abbrev pub found_or_404 : String → Bool → Tx T Work
  found_or_404 id found = if found then pure (nothing id) else fail not_found

  abbrev pub update_row : Store S T → String → Data → List Written → Option Data → Tx T Work
  update_row st id input ws none = fail not_found
  update_row st id input ws (some before) = update_if_any st (targets_of ws) id >>= λ _.
      second_phase st id input
        (record { changed = fields_of ws; new_values = new_values_onto ws []; back = [] })
        (some before)

  abbrev pub update_assigned : Store S T → String → Data → List Written → Tx T Work
  update_assigned st id input ws =
      if is_empty ws && is_empty (deferred st.table input)
      then (reading db (exists lib db st.table id) >>= λ found. found_or_404 id found)
      else (reading db (row lib db st.table (fields_of ws ++ names (deferred st.table input)) id)
          >>= λ before. update_row st id input ws before)

  unfoldable pub update_work : Store S T → String → Data → Tx T Work
  update_work st id input =
      lift (assignments st.table input) >>= λ ws. update_assigned st id input ws

  abbrev pub work : Store S T → Option String → Data → Tx T Work
  work st none input = create_work st input
  work st (some id) input = update_work st id input

  -- `wrote`.
  unfoldable pub notify : Store S T → String → List Change → Bool → S → Reported S
  notify st id changes created s = elim st.on_write [
    | none ↦ returned s
    | some hook ↦ hook id changes created s
  ]

  unfoldable pub changes_of : Progress → Option Data → List Change
  changes_of p none = created_changes p.changed p.new_values
  changes_of p (some before) = diff lib p.changed before p.new_values

  -- `return rowID, nil, nil` behind `wrote`.
  abbrev pub told : String → Reported S → Ran String × S
  told id (returned s) = (ok id, s)
  told id (panicked s) = (crashed, s)

  -- The commit, then the report; without a commit the deferred rollback takes effect.
  abbrev pub reported :
      Store S T → String → Progress → Option Data → Option Failure × S → Ran String × S
  reported st id p before (some e, s) = (failed e, s)
  reported st id p before (none, s) =
      told id (notify st id (changes_of p before) (not (is_some before)) s)

  unfoldable pub finish : Store S T → Ran Work × T → Ran String × S
  finish st (failed e, t) = (failed e, db.rollback t)
  finish st (crashed, t) = (crashed, db.rollback t)
  finish st (ok (nothing id), t) = (ok id, db.rollback t)
  finish st (ok (wrote id p before), t) = reported st id p before (db.commit t)

  -- `Begin`, which may fail.
  abbrev pub in_transaction : {A : Type 0} → (T → Ran A × S) → S → Ran T → Ran A × S
  in_transaction body s (ok t) = body t
  in_transaction body s (failed e) = (failed e, s)
  in_transaction body s crashed = (crashed, s)

  -- `Load`, `Save` and `Delete`.
  unfoldable pub load : Store S T → String → Reader S (Option Data)
  load st id = row lib db st.table (table_order st.table) id

  unfoldable pub save : Store S T → Option String → Data → S → Ran String × S
  save st id input s = in_transaction (λ t. finish st (work st id input t)) s (db.begin s)

  abbrev pub committed : Option Failure × S → Ran (Unit {0}) × S
  committed (none, s) = (ok tt, s)
  committed (some e, s) = (failed e, s)

  unfoldable pub finish_delete : Option Failure × T → Ran (Unit {0}) × S
  finish_delete (some e, t) = (failed (conflict_err lib e), db.rollback t)
  finish_delete (none, t) = committed (db.commit t)

  unfoldable pub delete : Store S T → String → S → Ran (Unit {0}) × S
  delete st id s =
      in_transaction (λ t. finish_delete (db.exec (delete_sql st.table id) t)) s (db.begin s)
