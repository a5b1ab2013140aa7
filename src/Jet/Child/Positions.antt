-- ===== src/Jet/Child/Positions.antt =====
-- The positions of the elements of a list.
use editrig_go.Base.{ℕ, suc, ◌≡◌, refl, Option, none, some, List, [], ◌∷◌, ◌++◌, String}
use editrig_go.Json.{Value}
use editrig_go.Jet.Sql.{
  Database, SqlColumn, Expr, Statement, Tx, Ran, ok, failed, crashed, continue, ◌>>=◌, exec, each,
  int,
}
use editrig_go.Jet.Values.{Library}
use editrig_go.Jet.Satellite.{cast_string}
use editrig_go.Jet.Child.{
  ChildTable, insert_value_sql, delete_all_sql, write_order, new_id_columns, new_id_values,
  key_columns, key_values,
}
use editrig_go.Jet.Child.Values.{insert_values, insert_then, replace_values}

-- The values of the elements that the cell parses, in their order.
abbrev parsed_if : Option (Expr × Value) → List Expr → List Expr
parsed_if none rest = rest
parsed_if (some (e, echo)) rest = e ∷ rest

abbrev pub parsed_values : (Value → Option (Expr × Value)) → List Value → List Expr
parsed_values parse [] = []
parsed_values parse (v ∷ vs) = parsed_if (parse v) (parsed_values parse vs)

-- One INSERT for each value, with consecutive positions.
abbrev insert_at : ChildTable → SqlColumn → String → String → ℕ → Expr → Statement
insert_at ct target parent key pos e =
    Statement.insert ct.src
      (new_id_columns ct ct.new_id
        ++ (ct.parent ∷ ct.order ∷ (key_columns key ct.key ++ (target ∷ []))))
      (new_id_values ct key pos ct.new_id
        ++ (cast_string parent ct.parent_type
            ∷ int (suc pos)
            ∷ (key_values ct.key_type key ct.key ++ (e ∷ []))))

abbrev pub inserts_from : ChildTable → SqlColumn → String → String → ℕ → List Expr → List Statement
inserts_from ct target parent key pos [] = []
inserts_from ct target parent key pos (e ∷ es) =
    insert_at ct target parent key pos e ∷ inserts_from ct target parent key (suc pos) es

continue_cong :
    {T A B : Type 0} (r : Ran A) (f g : A → Tx T B) (t : T)
    → ((a : A) (u : T) → f a u ≡ g a u)
    → continue r f t ≡ continue r g t
unfolding continue
continue_cong (ok a) f g t h = h a t
continue_cong (failed e) f g t h = refl
continue_cong crashed f g t h = refl

module _ (lib : Library) {S T : Type 0} (db : Database S T) (ct : ChildTable)
    (target : SqlColumn) where
  insert_one :
      (o : Option (Expr × Value)) (parent key : String) (pos : ℕ) (es : List Expr)
      (m n : Tx T (Unit {0})) (t : T)
      → ((u : T) → m u ≡ each (exec db) (inserts_from ct target parent key pos es) u)
      → ((u : T) → n u ≡ each (exec db) (inserts_from ct target parent key (suc pos) es) u)
      → insert_then lib db
          (elim o [ none ↦ none | some (e, echo) ↦ some (insert_at ct target parent key pos e) ])
          m
          n
          t
        ≡ each (exec db) (inserts_from ct target parent key pos (parsed_if o es)) t
  unfolding each ◌>>=◌
  insert_one none parent key pos es m n t h k = h t
  insert_one (some (e, echo)) parent key pos es m n t h k =
      continue_cong _ (λ _. n)
        (λ _. each (exec db) (inserts_from ct target parent key (suc pos) es)) _ (λ _ u. k u)

  insert_values-each :
      (parse : Value → Option (Expr × Value)) (parent key : String) (pos : ℕ) (vs : List Value)
      (t : T)
      → insert_values lib db ct parse target parent key pos vs t
        ≡ each (exec db) (inserts_from ct target parent key pos (parsed_values parse vs)) t
  unfolding insert_values insert_value_sql each write_order
  insert_values-each parse parent key pos [] t = refl
  insert_values-each parse parent key pos (v ∷ vs) t =
      insert_one (parse v) parent key pos (parsed_values parse vs) _ _ t
        (λ u. insert_values-each parse parent key pos vs u)
        (λ u. insert_values-each parse parent key (suc pos) vs u)

  -- The replacement of a list executes one DELETE of the whole partition and then one INSERT for
  -- each element that parses, in order, at the positions 1, 2, 3 and so on without a gap.
  pub replace_values-each :
      (parse : Value → Option (Expr × Value)) (parent key : String) (vs : List Value) (t : T)
      → replace_values lib db ct parse target parent key vs t
        ≡ each
            (exec db)
            (delete_all_sql ct parent key
              ∷ inserts_from ct target parent key 0 (parsed_values parse vs))
            t
  unfolding replace_values each ◌>>=◌
  replace_values-each parse parent key vs t =
      continue_cong _ _ _ _ (λ _ u. insert_values-each parse parent key 0 vs u)
