-- ===== src/Jet/Table/Phases.antt =====
-- What a payload writes: the assignments of the first phase and the cells of the second.
use mathlib.Core.List.{Memᴰ}
use editrig_go.Base.{
  ◌≡◌, refl, subst, Bool, true, false, not, ◌&&◌, ◌||◌, Option, none, some, List, [], ◌∷◌, ◌++◌,
  is_some, All, if◌then◌else◌,
}
use editrig_go.Map.{lookup}
use editrig_go.Json.{Value, Data}
use editrig_go.Jet.Sql.{Assignment, Ran, ok, failed, crashed, ok_inj, ◌>>→◌}
use editrig_go.Jet.Column.{Column, writable, is_satellite}
use editrig_go.Jet.Table.{
  Named, Written, assignments_of, assigned, is_assigned, is_deferred, is_set, assign_value,
  assign_present, written_by,
}

-- The conditions of the two phases, over what they test: an `assign`, a `save`, a satellite, a
-- value that is not null.
bools_one_phase :
    (assign save outside set : Bool)
    → (assign || save) ≡ true
    → (outside ≡ true → assign ≡ false)
    → not (not (assign || save) || outside || save && set)
      ≡ not (save && true && not (not set && not outside))
bools_one_phase true save true set h k = let e = k refl in absurd (cc)
bools_one_phase true true false true h k = refl
bools_one_phase true true false false h k = refl
bools_one_phase true false false set h k = refl
bools_one_phase false true true true h k = refl
bools_one_phase false true true false h k = refl
bools_one_phase false true false true h k = refl
bools_one_phase false true false false h k = refl
bools_one_phase false false outside set h k = absurd (cc)

module _ {S T : Type 0} where
  -- A cell of the declaration wrote the value that the payload has under the cell's name, as the
  -- cell parses it.
  pub data FromPayload (cols : List (Named S T)) (input : Data) (w : Written) : Type 0 where
    wrote :
        (c : Named S T) (assign : Value → Option (Assignment × Value)) (v : Value)
        → Memᴰ c cols
        → c.name ≡ w.field
        → c.column.assign ≡ some assign
        → is_satellite c.column ≡ false
        → lookup c.name input ≡ some v
        → assign v ≡ some (w.target, w.value)
        → FromPayload cols input w

  -- A value that is sent for a writable cell is written by exactly one of the two phases, if a
  -- satellite has no assignment.
  pub one_phase :
      (c : Column S T) (v : Value)
      → writable c ≡ true
      → (is_satellite c ≡ true → is_some c.assign ≡ false)
      → is_assigned c (some v) ≡ not (is_deferred c (some v))
  unfolding is_assigned is_deferred writable
  one_phase c v =
      bools_one_phase (is_some c.assign) (is_some c.save) (is_satellite c) (is_set (some v))

  assigned_satellite :
      (c : Column S T) (v : Option Value) → is_assigned c v ≡ true → is_satellite c ≡ false
  unfolding is_assigned
  assigned_satellite c v h = bools (writable c) (is_satellite c) (is_some c.save && is_set v) h
    where
      bools : (w s d : Bool) → not (not w || s || d) ≡ true → s ≡ false
      bools w false d e = refl
      bools true true d e = absurd (cc)
      bools false true d e = absurd (cc)

  module _ (cols : List (Named S T)) (input : Data) where
    FromPayload-written_by :
        (c : Named S T) (v : Value) (assign : Value → Option (Assignment × Value))
        (o : Option (Assignment × Value))
        → Memᴰ c cols
        → c.column.assign ≡ some assign
        → is_satellite c.column ≡ false
        → lookup c.name input ≡ some v
        → assign v ≡ o
        → All (FromPayload cols input) (written_by c.name o)
    FromPayload-written_by c v assign none m a s l e = tt
    FromPayload-written_by c v assign (some (t, echo)) m a s l e =
        (wrote c assign v m refl a s l e, tt)

    FromPayload-assign_value :
        (c : Named S T) (v : Value) (o : Option (Value → Option (Assignment × Value)))
        (ws : List Written)
        → Memᴰ c cols
        → c.column.assign ≡ o
        → is_satellite c.column ≡ false
        → lookup c.name input ≡ some v
        → assign_value c.name o v ≡ ok ws
        → All (FromPayload cols input) ws
    FromPayload-assign_value c v none ws m a s l e = absurd (cc)
    FromPayload-assign_value c v (some assign) ws m a s l e =
        subst (All (FromPayload cols input)) (ok_inj e)
          (FromPayload-written_by c v assign _ m a s l refl)

    FromPayload-assign_present :
        (c : Named S T) (o : Option Value) (ws : List Written)
        → Memᴰ c cols
        → is_satellite c.column ≡ false
        → lookup c.name input ≡ o
        → assign_present c o ≡ ok ws
        → All (FromPayload cols input) ws
    FromPayload-assign_present c none ws m s l e =
        subst (All (FromPayload cols input)) (ok_inj e) tt
    FromPayload-assign_present c (some v) ws m s l e =
        FromPayload-assign_value c v _ ws m refl s l e

    FromPayload-if :
        (c : Named S T) (b : Bool) (ws : List Written)
        → Memᴰ c cols
        → is_assigned c.column (lookup c.name input) ≡ b
        → (if b then assign_present c (lookup c.name input) else ok []) ≡ ok ws
        → All (FromPayload cols input) ws
    FromPayload-if c true ws m h e =
        FromPayload-assign_present c _ ws m (assigned_satellite c.column _ h) refl e
    FromPayload-if c false ws m h e = subst (All (FromPayload cols input)) (ok_inj e) tt

    All-++ :
        (xs ys : List Written)
        → All (FromPayload cols input) xs
        → All (FromPayload cols input) ys
        → All (FromPayload cols input) (xs ++ ys)
    All-++ [] ys a b = b
    All-++ (x ∷ xs) ys (p, a) b = (p, All-++ xs ys a b)

    FromPayload-append :
        (xs ws : List Written) (r : Ran (List Written))
        → All (FromPayload cols input) xs
        → ((rest : List Written) → r ≡ ok rest → All (FromPayload cols input) rest)
        → (r >>→ λ rest. ok (xs ++ rest)) ≡ ok ws
        → All (FromPayload cols input) ws
    FromPayload-append xs ws (ok rest) a h e =
        subst (All (FromPayload cols input)) (ok_inj e) (All-++ xs rest a (h rest refl))
    FromPayload-append xs ws (failed f) a h e = absurd (cc)
    FromPayload-append xs ws crashed a h e = absurd (cc)

    FromPayload-then :
        (r rest : Ran (List Written)) (ws : List Written)
        → ((xs : List Written) → r ≡ ok xs → All (FromPayload cols input) xs)
        → ((xs : List Written) → rest ≡ ok xs → All (FromPayload cols input) xs)
        → (r >>→ λ xs. rest >>→ λ more. ok (xs ++ more)) ≡ ok ws
        → All (FromPayload cols input) ws
    FromPayload-then (ok xs) rest ws h k e = FromPayload-append xs ws rest (h xs refl) k e
    FromPayload-then (failed f) rest ws h k e = absurd (cc)
    FromPayload-then crashed rest ws h k e = absurd (cc)

    FromPayload-assignments_of :
        (part : List (Named S T)) (ws : List Written)
        → ((c : Named S T) → Memᴰ c part → Memᴰ c cols)
        → assignments_of part input ≡ ok ws
        → All (FromPayload cols input) ws
    unfolding assignments_of assigned
    FromPayload-assignments_of [] ws m e = subst (All (FromPayload cols input)) (ok_inj e) tt
    FromPayload-assignments_of (c ∷ part) ws m e =
        FromPayload-then (assigned c input) (assignments_of part input) ws
          (λ xs. FromPayload-if c _ xs (m c (Memᴰ.head refl)) refl)
          (λ xs. FromPayload-assignments_of part xs λ d k. m d (Memᴰ.tail k)) e

  -- Every assignment of the first phase comes from the payload: its field is that of a cell of the
  -- declaration that is no satellite and has an assignment, the payload has a value under that name,
  -- and the cell's parser made the assignment and the reported value of it.
  pub assignments-FromPayload :
      (cols : List (Named S T)) (input : Data) (ws : List Written)
      → assignments_of cols input ≡ ok ws
      → All (FromPayload cols input) ws
  assignments-FromPayload cols input ws = FromPayload-assignments_of cols input cols ws (λ c m. m)
