-- ===== src/Jet/Table/Mentions.antt =====
-- The names that the two phases of a write mention: the fields of the first one's assignments, and
-- the cells of the second.
use mathlib.Core.List.{Memᴰ}
use editrig_go.Base.{
  ◌≡◌, refl, ap, sym, ◌∙◌, Bool, true, false, ◌&&◌, ◌||◌, Option, none, some, List, [], ◌∷◌, ◌++◌,
  String, ◌==◌, eq_iff, mem_text, is_some, if◌then◌else◌, arith,
}
use editrig_go.Map.{lookup}
use editrig_go.Json.{Value, Data}
use editrig_go.Jet.Sql.{Assignment, Ran, ok, failed, crashed, is_ok, ok_inj, ◌>>→◌}
use editrig_go.Jet.Table.{
  Named, Written, names, assignments_of, assigned, is_assigned, is_deferred, deferred_of,
  assign_value, assign_present, written_by,
}
use editrig_go.Jet.Store.{fields_of}

fields-++ :
    (k : String) (xs ys : List Written)
    → mem_text k (fields_of (xs ++ ys)) ≡ (mem_text k (fields_of xs) || mem_text k (fields_of ys))
fields-++ k [] ys = refl
fields-++ k (x ∷ xs) ys = ground (arith, fields-++ k xs ys)

-- Does the cell's parser take the value.
abbrev pub parses : Option Value → Option (Value → Option (Assignment × Value)) → Bool
parses none assign = false
parses (some v) none = false
parses (some v) (some assign) = is_some (assign v)

mem-written_by :
    (k name : String) (o : Option (Assignment × Value))
    → mem_text k (fields_of (written_by name o)) ≡ (name == k && is_some o)
mem-written_by k name none = ground arith
mem-written_by k name (some (t, v)) = ground arith

mem-assign_value :
    (k name : String) (assign : Option (Value → Option (Assignment × Value))) (v : Value)
    (ws : List Written)
    → assign_value name assign v ≡ ok ws
    → mem_text k (fields_of ws) ≡ (name == k && parses (some v) assign)
mem-assign_value k name none v ws e = absurd (cc)
mem-assign_value k name (some assign) v ws e =
    ap (λ ws. mem_text k (fields_of ws)) (sym (ok_inj e)) ∙ mem-written_by k name (assign v)

-- The fields that one cell and the cells behind it assign.
mem-then :
    (k : String) (own more : Bool) (r rest : Ran (List Written)) (ws : List Written)
    → ((xs : List Written) → r ≡ ok xs → mem_text k (fields_of xs) ≡ own)
    → ((xs : List Written) → rest ≡ ok xs → mem_text k (fields_of xs) ≡ more)
    → (r >>→ λ xs. rest >>→ λ ys. ok (xs ++ ys)) ≡ ok ws
    → mem_text k (fields_of ws) ≡ (own || more)
mem-then k own more (ok xs) (ok ys) ws h j e =
    ap (λ ws. mem_text k (fields_of ws)) (sym (ok_inj e))
    ∙ fields-++ k xs ys
    ∙ ground (arith, h xs refl, j ys refl)
mem-then k own more (ok xs) (failed f) ws h j e = absurd (cc)
mem-then k own more (ok xs) crashed ws h j e = absurd (cc)
mem-then k own more (failed f) rest ws h j e = absurd (cc)
mem-then k own more crashed rest ws h j e = absurd (cc)

-- If the first phase does not panic, no cell panics in it.
pub both_ok :
    (r rest : Ran (List Written)) (ws : List Written)
    → (r >>→ λ xs. rest >>→ λ ys. ok (xs ++ ys)) ≡ ok ws
    → (is_ok r ≡ true) × ((ys : List Written) × (rest ≡ ok ys))
both_ok (ok xs) (ok ys) ws e = (refl, (ys, refl))
both_ok (ok xs) (failed f) ws e = absurd (cc)
both_ok (ok xs) crashed ws e = absurd (cc)
both_ok (failed f) rest ws e = absurd (cc)
both_ok crashed rest ws e = absurd (cc)

module _ {S T : Type 0} where
  -- No name twice.
  abbrev pub HasDistinctCells : List (Named S T) → Type 0
  HasDistinctCells [] = Unit
  HasDistinctCells (c ∷ cols) = (mem_text c.name (names cols) ≡ false) × HasDistinctCells cols

  mem-assign_present :
      (k : String) (c : Named S T) (o : Option Value) (ws : List Written)
      → assign_present c o ≡ ok ws
      → mem_text k (fields_of ws) ≡ (c.name == k && parses o c.column.assign)
  mem-assign_present k c none ws e =
      ap (λ ws. mem_text k (fields_of ws)) (sym (ok_inj e)) ∙ ground arith
  mem-assign_present k c (some v) ws e = mem-assign_value k c.name c.column.assign v ws e

  mem-assigned_if :
      (k : String) (c : Named S T) (b : Bool) (o : Option Value) (ws : List Written)
      → (if b then assign_present c o else ok []) ≡ ok ws
      → mem_text k (fields_of ws) ≡ (c.name == k && (b && parses o c.column.assign))
  mem-assigned_if k c true o ws e = mem-assign_present k c o ws e
  mem-assigned_if k c false o ws e =
      ap (λ ws. mem_text k (fields_of ws)) (sym (ok_inj e)) ∙ ground arith

  module _ (input : Data) where
    abbrev pub assigns : String → Named S T → Bool
    assigns k c =
        c.name == k
        && (is_assigned c.column (lookup c.name input)
            && parses (lookup c.name input) c.column.assign)

    abbrev pub any_assigns : String → List (Named S T) → Bool
    any_assigns k [] = false
    any_assigns k (c ∷ cols) = assigns k c || any_assigns k cols

    abbrev pub any_deferred : String → List (Named S T) → Bool
    any_deferred k [] = false
    any_deferred k (c ∷ cols) =
        c.name == k && is_deferred c.column (lookup c.name input) || any_deferred k cols

    pub mem-assignments_of :
        (k : String) (cols : List (Named S T)) (ws : List Written)
        → assignments_of cols input ≡ ok ws
        → mem_text k (fields_of ws) ≡ any_assigns k cols
    unfolding assignments_of assigned
    mem-assignments_of k [] ws e = ap (λ ws. mem_text k (fields_of ws)) (sym (ok_inj e))
    mem-assignments_of k (c ∷ cols) ws e =
        mem-then k (assigns k c) (any_assigns k cols) (assigned c input) (assignments_of cols input)
          ws (mem-assigned_if k c _ _) (mem-assignments_of k cols) e

    mem-deferred_if :
        (k : String) (c : Named S T) (b more : Bool) (rest : List (Named S T))
        → mem_text k (names rest) ≡ more
        → mem_text k (names (if b then c ∷ rest else rest)) ≡ (c.name == k && b || more)
    unfolding names
    mem-deferred_if k c true more rest h = ground (arith, h)
    mem-deferred_if k c false more rest h = ground (arith, h)

    pub mem-deferred_of :
        (k : String) (cols : List (Named S T))
        → mem_text k (names (deferred_of cols input)) ≡ any_deferred k cols
    unfolding deferred_of names
    mem-deferred_of k [] = refl
    mem-deferred_of k (c ∷ cols) = mem-deferred_if k c _ _ _ (mem-deferred_of k cols)

    -- A name that no cell has is in neither phase.
    pub none_named :
        (k : String) (cols : List (Named S T))
        → mem_text k (names cols) ≡ false
        → (any_assigns k cols ≡ false) × (any_deferred k cols ≡ false)
    unfolding names
    none_named k [] e = (refl, refl)
    none_named k (c ∷ cols) e =
        let (a, d) = none_named k cols (ground (arith, e)) in
        (ground (arith, a, e), ground (arith, d, e))

    pub is_named :
        (c : Named S T) (cols : List (Named S T))
        → Memᴰ c cols
        → mem_text c.name (names cols) ≡ true
    unfolding names
    is_named c [] m = elim m [ ]
    is_named c (d ∷ cols) (Memᴰ.head e) = ground (arith, ap (λ n. n.name) e, eq_iff d.name c.name)
    is_named c (d ∷ cols) (Memᴰ.tail m) = ground (arith, is_named c cols m)
