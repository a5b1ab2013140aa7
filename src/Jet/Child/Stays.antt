-- ===== src/Jet/Child/Stays.antt =====
-- The cells of child tables work in the transaction that they are given.
use editrig_go.Base.{
  ℕ, suc, ◌≡◌, refl, subst, some_inj, Option, none, some, List, [], ◌∷◌, String, ◌==◌,
}
use editrig_go.Json.{Value, Data, null}
use editrig_go.Jet.Sql.{
  Database, IsTransactional, SqlColumn, Expr, Projection, Statement, Tx, Reader, Ran, ok, failed,
  crashed, computed, column, ◌>>=◌,
}
use editrig_go.Jet.Sql.Rules.{
  Stays, Stays-pure, Stays-fail, Stays-crash, Stays-exec, Stays-reading, Stays-if, Stays-bind,
}
use editrig_go.Jet.Values.{Library}
use editrig_go.Jet.Column.{Column}
use editrig_go.Jet.Table.{Table, Named}
use editrig_go.Jet.Satellite.{as_patch}
use editrig_go.Jet.Store.Stays.{StaysCell, StaysCells, no_cells, and_cell, StaysCells-deferred_of}
use editrig_go.Jet.Child.{ChildTable, satellite_cell}
use editrig_go.Jet.Child.Values.{
  insert_values, insert_then, replace_values, replace_under, replace_partitions, save_values,
  save_keyed_values, child_values, values_cell,
}
use editrig_go.Jet.Child.Rows.Write.{
  exec_ran, save_cell, save_nested, write_row, write_each, write_rows, save_rows,
}

module _ {S T : Type 0} {db : Database S T} {law : IsTransactional db} where
  StaysCell-satellite_cell :
      (kind elem : String) (load : String → Reader S Value) (save : String → Value → Tx T Value)
      → ((id : String) (v : Value) → Stays law (save id v))
      → StaysCell law (satellite_cell kind elem load save)
  StaysCell-satellite_cell kind elem load save h = record {
    save = λ f e id v.
        subst (λ (g : String → Value → Tx T Value). Stays law (g id v)) (some_inj e) (h id v);
  }

module _ (lib : Library) {S T : Type 0} {db : Database S T} {law : IsTransactional db} where
  module _ (ct : ChildTable) (parse : Value → Option (Expr × Value)) (target : SqlColumn) where
    Stays-insert_then :
        (o : Option Statement) (m n : Tx T (Unit {0}))
        → Stays law m
        → Stays law n
        → Stays law (insert_then lib db o m n)
    Stays-insert_then none m n h k = h
    Stays-insert_then (some q) m n h k = Stays-bind _ _ (Stays-exec q) (λ _. k)

    Stays-insert_values :
        (parent key : String) (pos : ℕ) (vs : List Value)
        → Stays law (insert_values lib db ct parse target parent key pos vs)
    unfolding insert_values
    Stays-insert_values parent key pos [] = Stays-pure tt
    Stays-insert_values parent key pos (v ∷ vs) =
        Stays-insert_then _ _ _ (Stays-insert_values parent key pos vs)
          (Stays-insert_values parent key (suc pos) vs)

    Stays-replace_values :
        (parent key : String) (vs : List Value)
        → Stays law (replace_values lib db ct parse target parent key vs)
    unfolding replace_values
    Stays-replace_values parent key vs =
        Stays-bind _ _ (Stays-exec _) (λ _. Stays-insert_values parent key 0 vs)

    Stays-replace_under :
        (parent key : String) (vs : Option (List Value))
        → Stays law (replace_under lib db ct parse target parent key vs)
    Stays-replace_under parent key none = Stays-pure tt
    Stays-replace_under parent key (some vs) =
        Stays-if (key == "") _ _ (Stays-pure tt) (Stays-replace_values parent key vs)

    Stays-replace_partitions :
        (parent : String) (patch : Data) (ks : List String)
        → Stays law (replace_partitions lib db ct parse target parent patch ks)
    unfolding replace_partitions
    Stays-replace_partitions parent patch [] = Stays-pure tt
    Stays-replace_partitions parent patch (key ∷ ks) =
        Stays-bind _ _ (Stays-replace_under parent key _)
          (λ _. Stays-replace_partitions parent patch ks)

    Stays-save_values :
        (cell : Column S T) (parent : String) (vs : Option (List Value))
        → Stays law (save_values lib db ct cell parse target parent vs)
    Stays-save_values cell parent none = Stays-pure null
    Stays-save_values cell parent (some vs) =
        Stays-bind _ _ (Stays-replace_values parent "" vs) (λ _. Stays-reading _)

    Stays-save_keyed_values :
        (key_col : SqlColumn) (cell : Column S T) (parent : String) (patch : Option Data)
        → Stays law (save_keyed_values lib db ct key_col cell parse target parent patch)
    Stays-save_keyed_values key_col cell parent none = Stays-pure null
    Stays-save_keyed_values key_col cell parent (some patch) =
        Stays-bind _ _ (Stays-replace_partitions parent patch _) (λ _. Stays-reading _)

  StaysCell-values_cell :
      (ct : ChildTable) (cell made : Column S T) (o : Option (Value → Option (Expr × Value)))
      (proj : Option Projection) (key : Option SqlColumn)
      → values_cell lib db ct cell o proj key ≡ some made
      → StaysCell law made
  StaysCell-values_cell ct cell made (some parse) (some (column target)) none e =
      subst (StaysCell law) (some_inj e)
        (StaysCell-satellite_cell _ _ _ _ λ id v. Stays-save_values ct parse target cell id _)
  StaysCell-values_cell ct cell made (some parse) (some (column target)) (some k) e = absurd (cc)
  StaysCell-values_cell ct cell made (some parse) (some (computed x)) k e = absurd (cc)
  StaysCell-values_cell ct cell made (some parse) none k e = absurd (cc)
  StaysCell-values_cell ct cell made none p k e = absurd (cc)

  -- A cell of `ChildValues` is one that a store may have.
  pub StaysCell-child_values :
      (ct : ChildTable) (cell made : Column S T)
      → child_values lib db ct cell ≡ some made
      → StaysCell law made
  unfolding child_values
  StaysCell-child_values ct cell made e = StaysCell-values_cell ct cell made _ _ _ e

  module _ (ct : ChildTable) (inner : Table S T) (field : String) where
    Stays-exec_ran : (r : Ran Statement) → Stays law (exec_ran lib db r)
    Stays-exec_ran (ok q) = Stays-exec q
    Stays-exec_ran (failed e) = Stays-fail e
    Stays-exec_ran crashed = Stays-crash

    Stays-save_cell :
        (c : Column S T) (o : Option (String → Value → Tx T Value)) (id : String) (v : Value)
        → c.save ≡ o
        → StaysCell law c
        → Stays law (save_cell lib db o id v)
    Stays-save_cell c none id v e k = Stays-crash
    Stays-save_cell c (some f) id v e k = k.save f e id v

    Stays-save_nested :
        (id : String) (item : Data) (cols : List (Named S T))
        → StaysCells law cols
        → Stays law (save_nested lib db id item cols)
    unfolding save_nested
    Stays-save_nested id item [] no_cells = Stays-pure tt
    Stays-save_nested id item (c ∷ cols) (and_cell k ks) =
        Stays-bind _ _ (Stays-save_cell c.column _ id _ refl k)
          (λ v. Stays-save_nested id item cols ks)

    Stays-write_row :
        (parent key id : String) (pos : ℕ) (item : Data)
        → StaysCells law inner.cols
        → Stays law (write_row lib db ct inner field parent key id pos item)
    Stays-write_row parent key id pos item ks =
        Stays-bind _ _ (Stays-exec_ran _)
          (λ _. Stays-save_nested id item _ (StaysCells-deferred_of inner.cols item ks))

    Stays-item :
        (o : Option Data) (skipped : Tx T (Unit {0})) (write : Data → Tx T (Unit {0}))
        (next : Tx T (Unit {0}))
        → Stays law skipped
        → ((item : Data) → Stays law (write item))
        → Stays law next
        → Stays law (elim o [ none ↦ skipped | some item ↦ write item >>= λ _. next ])
    Stays-item none skipped write next h k l = h
    Stays-item (some item) skipped write next h k l = Stays-bind _ _ (k item) (λ _. l)

    Stays-write_each :
        (parent key : String) (pos : ℕ) (ids : List String) (vs : List Value)
        → StaysCells law inner.cols
        → Stays law (write_each lib db ct inner field parent key pos ids vs)
    unfolding write_each
    Stays-write_each parent key pos [] vs ks = Stays-pure tt
    Stays-write_each parent key pos (id ∷ ids) [] ks = Stays-pure tt
    Stays-write_each parent key pos (id ∷ ids) (v ∷ vs) ks =
        Stays-item (as_patch (some v)) _ _ _ (Stays-write_each parent key pos ids vs ks)
          (λ item. Stays-write_row parent key id pos item ks)
          (Stays-write_each parent key (suc pos) ids vs ks)

    Stays-write_rows :
        (parent key : String) (vs : List Value)
        → StaysCells law inner.cols
        → Stays law (write_rows lib db ct inner field parent key vs)
    unfolding write_rows
    Stays-write_rows parent key vs ks =
        Stays-bind _ _ (Stays-reading _)
          (λ owned. Stays-bind _ _ (Stays-exec _) (λ _. Stays-write_each parent key 0 _ vs ks))

    -- The write of `ChildRows`, over element cells that a store may have.
    pub Stays-save_rows :
        (parent : String) (vs : Option (List Value))
        → StaysCells law inner.cols
        → Stays law (save_rows lib db ct inner field parent vs)
    Stays-save_rows parent none ks = Stays-pure null
    Stays-save_rows parent (some vs) ks =
        Stays-bind _ _ (Stays-write_rows parent "" vs ks) (λ _. Stays-reading _)
