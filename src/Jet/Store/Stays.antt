-- ===== src/Jet/Store/Stays.antt =====
-- The work of a save before its commit leaves the committed state alone.
use editrig_go.Base.{
  ◌≡◌, refl, subst, some_inj, ◌&&◌, Bool, true, false, Option, none, some, List, [], ◌∷◌, String,
  if◌then◌else◌, is_empty, mem_text,
}
use editrig_go.Map.{Map}
use editrig_go.Json.{Value, null, Data}
use editrig_go.Jet.Sql.{SqlColumn, Database, IsTransactional, Tx, Ran, Assignment, Statement}
use editrig_go.Jet.Sql.Rules.{
  Stays, Stays-pure, Stays-fail, Stays-crash, Stays-exec, Stays-reading, Stays-if, Stays-bind,
  Stays-each,
}
use editrig_go.Jet.Values.{Library}
use editrig_go.Jet.Column.{Column, KeyedTable, ClearPolicy, KeyedSatellite, is_satellite}
use editrig_go.Jet.Table.{Named, Written, deferred, deferred_of}
use editrig_go.Jet.Satellite.{
  save_patch, Group, KeyedColumnWrite, write_groups, write_many, keyed_strings,
}
use editrig_go.Jet.Store.{Store, Change, Progress}
use editrig_go.Jet.Store.Save.{
  work, create_work, update_work, second_phase, write_deferred, deferred_value, add_deferred,
  update_if_any, exec_or_crash, read_back, save_with, assigned_back, create_with, update_row,
}

-- The second-phase writes of the cells and the `Create` hook work with the transaction's statements
-- alone: "save is on the same tx", "the hook must neither commit".
module _ {S T : Type 0} {db : Database S T} (law : IsTransactional db) where
  pub record StaysCell (c : Column S T) : Type 0 where
    pub save :
        (f : String → Value → Tx T Value)
        → c.save ≡ some f
        → (id : String) (v : Value) → Stays law (f id v)

  pub data StaysCells : List (Named S T) → Type 0 where
    no_cells : StaysCells []
    and_cell :
        {c : Named S T} {cols : List (Named S T)}
        → StaysCell c.column
        → StaysCells cols
        → StaysCells (c ∷ cols)

  pub record StaysStore (st : Store S T) : Type 0 where
    pub cells : StaysCells st.table.cols
    pub create :
        (f : Data → Tx T (String × List Change))
        → st.create ≡ some f
        → (input : Data) → Stays law (f input)

module _ {S T : Type 0} {db : Database S T} {law : IsTransactional db} where
  StaysCells-if :
      (b : Bool) (c : Named S T) (cols : List (Named S T))
      → StaysCell law c.column
      → StaysCells law cols
      → StaysCells law (if b then c ∷ cols else cols)
  StaysCells-if true c cols k ks = and_cell k ks
  StaysCells-if false c cols k ks = ks

  pub StaysCells-deferred_of :
      (cols : List (Named S T)) (input : Data)
      → StaysCells law cols
      → StaysCells law (deferred_of cols input)
  unfolding deferred_of
  StaysCells-deferred_of [] input no_cells = no_cells
  StaysCells-deferred_of (c ∷ cols) input (and_cell k ks) =
      StaysCells-if _ c _ k (StaysCells-deferred_of cols input ks)

  Stays-lift : {A : Type 0} (r : Ran A) → Stays law {A = A} (λ t. (r, t))
  Stays-lift r = record { at = λ t. refl }

  -- A cell without a second phase.
  pub StaysCell-of_none : (c : Column S T) → c.save ≡ none → StaysCell law c
  StaysCell-of_none c e = record { save = λ f e' id v. absurd (cc) }

module _ (lib : Library) {S T : Type 0} {db : Database S T} {law : IsTransactional db} where
  Stays-exec_or_crash : (o : Option Statement) → Stays law (exec_or_crash lib db o)
  Stays-exec_or_crash none = Stays-crash
  Stays-exec_or_crash (some q) = Stays-exec q

  Stays-update_if_any :
      (st : Store S T) (assigns : List Assignment) (id : String)
      → Stays law (update_if_any lib db st assigns id)
  unfolding update_if_any
  Stays-update_if_any st assigns id =
      Stays-if (is_empty assigns) _ _ (Stays-pure tt) (Stays-exec_or_crash _)

  pub Stays-write_many :
      (kt : KeyedTable) (id : String) (writes : List KeyedColumnWrite)
      → Stays law (write_many lib db kt id writes)
  unfolding write_many
  Stays-write_many kt id writes = Stays-each _ _ (λ key. Stays-each _ _ (λ q. Stays-exec q))

  Stays-write_groups :
      (id : String) (groups : Map Group) → Stays law (write_groups lib db id groups)
  unfolding write_groups
  Stays-write_groups id [] = Stays-pure tt
  Stays-write_groups id ((key, g) ∷ groups) =
      Stays-bind _ _ (Stays-write_many g.table id g.writes) (λ _. Stays-write_groups id groups)

  Stays-read_back : (sc : Option KeyedSatellite) (id : String) → Stays law (read_back lib db sc id)
  Stays-read_back none id = Stays-crash
  Stays-read_back (some sc) id = Stays-reading _

  Stays-save_with :
      (c : Column S T) (o : Option (String → Value → Tx T Value)) (id : String) (v : Value)
      → c.save ≡ o
      → StaysCell law c
      → Stays law (save_with lib db o id v)
  Stays-save_with c none id v e k = Stays-crash
  Stays-save_with c (some f) id v e k = k.save f e id v

  Stays-deferred_value :
      (handled : List String) (id : String) (input : Data) (c : Named S T)
      → StaysCell law c.column
      → Stays law (deferred_value lib db handled id input c)
  unfolding deferred_value
  Stays-deferred_value handled id input c k =
      Stays-if (mem_text c.name handled) _ _ (Stays-read_back _ id)
        (Stays-save_with c.column _ id _ refl k)

  Stays-assigned_back :
      (a : Option Assignment) (c : Named S T) (v : Value) (p : Progress)
      → Stays law (assigned_back lib db a c v p)
  Stays-assigned_back none c v p = Stays-crash
  Stays-assigned_back (some a) c v p = Stays-pure _

  Stays-add_deferred :
      (c : Named S T) (p : Progress) (v : Value) → Stays law (add_deferred lib db c p v)
  unfolding add_deferred
  Stays-add_deferred c p null = Stays-pure p
  Stays-add_deferred c p v =
      Stays-if (is_satellite c.column) _ _ (Stays-pure _) (Stays-assigned_back _ c v p)

  Stays-write_deferred :
      (handled : List String) (id : String) (input : Data) (cols : List (Named S T)) (p : Progress)
      → StaysCells law cols
      → Stays law (write_deferred lib db handled id input cols p)
  unfolding write_deferred
  Stays-write_deferred handled id input [] p no_cells = Stays-pure p
  Stays-write_deferred handled id input (c ∷ cols) p (and_cell k ks) =
      Stays-bind _ _ (Stays-deferred_value handled id input c k) (λ v.
        Stays-bind _ _ (Stays-add_deferred c p v)
          (λ p'. Stays-write_deferred handled id input cols p' ks))

  Stays-second_phase :
      (st : Store S T) (id : String) (input : Data) (p : Progress) (before : Option Data)
      → StaysCells law st.table.cols
      → Stays law (second_phase lib db st id input p before)
  unfolding second_phase
  Stays-second_phase st id input p before ks = Stays-bind _ _ (Stays-write_groups id _) (λ _.
      Stays-bind _ _ (Stays-write_deferred _ id input _ p (StaysCells-deferred_of _ input ks))
        (λ q. Stays-bind _ _ (Stays-update_if_any st q.back id) (λ _. Stays-pure _)))

  Stays-create_with :
      (st : Store S T) (o : Option (Data → Tx T (String × List Change))) (input : Data)
      → st.create ≡ o
      → StaysStore law st
      → Stays law (create_with lib db o input)
  Stays-create_with st none input e k = Stays-crash
  Stays-create_with st (some f) input e k = k.create f e input

  Stays-update_row :
      (st : Store S T) (id : String) (input : Data) (ws : List Written) (before : Option Data)
      → StaysCells law st.table.cols
      → Stays law (update_row lib db st id input ws before)
  Stays-update_row st id input ws none ks = Stays-fail _
  Stays-update_row st id input ws (some before) ks =
      Stays-bind _ _ (Stays-update_if_any st _ id)
        (λ _. Stays-second_phase st id input _ (some before) ks)

  -- The work before the commit leaves the committed state alone.
  pub Stays-work :
      (st : Store S T) (id : Option String) (input : Data)
      → StaysStore law st
      → Stays law (work lib db st id input)
  unfolding create_work update_work
  Stays-work st none input k = Stays-bind _ _ (Stays-create_with st _ input refl k) (λ made.
      Stays-bind _ _ (Stays-lift _) (λ ws. Stays-second_phase st made.0 input _ none k.cells))
  Stays-work st (some id) input k = Stays-bind _ _ (Stays-lift _) (λ ws.
      Stays-if (is_empty ws && is_empty (deferred st.table input)) _ _
        (Stays-bind _ _ (Stays-reading _)
          (λ found. Stays-if found _ _ (Stays-pure _) (Stays-fail _)))
        (Stays-bind _ _ (Stays-reading _)
          (λ before. Stays-update_row st id input ws before k.cells)))

  Stays-save_patch :
      (sc : KeyedSatellite) (id : String) (patch : Option Data)
      → Stays law (save_patch lib db sc id patch)
  Stays-save_patch sc id none = Stays-pure _
  Stays-save_patch sc id (some patch) =
      Stays-bind _ _ (Stays-write_many _ id _) (λ _. Stays-reading _)

  -- A cell of `KeyedStrings`.
  pub StaysCell-keyed_strings :
      (kt : KeyedTable) (col : SqlColumn) (clear : ClearPolicy)
      → StaysCell law (keyed_strings lib db kt col clear)
  unfolding keyed_strings
  StaysCell-keyed_strings kt col clear = record {
    save = λ f e id v.
        subst (λ (g : String → Value → Tx T Value). Stays law (g id v)) (some_inj e)
          (Stays-save_patch _ id _);
  }
