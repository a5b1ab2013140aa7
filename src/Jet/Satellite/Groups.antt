-- ===== src/Jet/Satellite/Groups.antt =====
-- Cells of one side table are written together, and every cell is.
use editrig_go.Base.{
  ◌≡◌, refl, ap, sym, ◌∙◌, Bool, true, false, Option, none, some, some_inj, List, [], ◌∷◌, ◌++◌,
  String, ◌==◌, eq_iff, if◌then◌else◌, arith,
}
use editrig_go.Text.{◌+++◌}
use editrig_go.Map.{Map, lookup, insert, has}
use editrig_go.Map.Laws.{HasDistinctKeys, has-insert, lookup-insert}
use editrig_go.Json.{Data}
use editrig_go.Jet.Column.{KeyedTable, KeyedSatellite}
use editrig_go.Jet.Table.{Named}
use editrig_go.Jet.Satellite.{
  Group, KeyedColumnWrite, group_key, keyed_groups, add_write, as_patch, add_to, add_cell,
}

-- The qualified name of a side table.
abbrev pub qualified : KeyedTable → String
qualified kt = kt.src.schema +++ "." +++ kt.src.name

abbrev group_writes : Option Group → List KeyedColumnWrite
group_writes none = []
group_writes (some g) = g.writes

-- What the groups write to the table of a name, and what the cells ask to be written there.
abbrev pub writes_to : String → Map Group → List KeyedColumnWrite
writes_to name groups = group_writes (lookup name groups)

abbrev write_of : KeyedSatellite → Data → KeyedColumnWrite
write_of sc patch = record { col = sc.col; clear = sc.clear; patch = patch }

abbrev pub own_write : String → Option KeyedSatellite → Option Data → List KeyedColumnWrite
own_write name none patch = []
own_write name (some sc) none = []
own_write name (some sc) (some patch) =
    if qualified sc.table == name then write_of sc patch ∷ [] else []

abbrev pub asked_writes : {S T : Type 0} → String → List (Named S T) → Data → List KeyedColumnWrite
asked_writes name [] input = []
asked_writes name (c ∷ cols) input =
    own_write name c.column.satellite (as_patch (lookup c.name input))
    ++ asked_writes name cols input

-- A group stands under the name of its table.
abbrev pub IsNamed : Map Group → Type 0
IsNamed groups =
    (name : String) (g : Group) → lookup name groups ≡ some g → qualified g.table ≡ name

module _ {V : Type 0} (k : String) (v : V) where
  distinct_if :
      (b : Bool) (j : String) (w : V) (m : Map V)
      → (j == k) ≡ b
      → has j m ≡ false
      → HasDistinctKeys m
      → HasDistinctKeys (insert k v m)
      → HasDistinctKeys (if b then (k, v) ∷ m else (j, w) ∷ insert k v m)
  distinct_if true j w m e a d h = (ground (arith, eq_iff j k), d)
  distinct_if false j w m e a d h = (ground (arith, has-insert k j v m, eq_iff j k, eq_iff k j), h)

  HasDistinctKeys-insert : (m : Map V) → HasDistinctKeys m → HasDistinctKeys (insert k v m)
  unfolding insert lookup
  HasDistinctKeys-insert [] d = (refl, tt)
  HasDistinctKeys-insert ((j, w) ∷ m) (a, d) =
      distinct_if (j == k) j w m refl a d (HasDistinctKeys-insert m d)

append_nil : {A : Type 0} (xs : List A) → xs ++ [] ≡ xs
append_nil [] = refl
append_nil (x ∷ xs) = ap (x ∷◌) (append_nil xs)

append_assoc : {A : Type 0} (xs ys zs : List A) → (xs ++ ys) ++ zs ≡ xs ++ (ys ++ zs)
append_assoc [] ys zs = refl
append_assoc (x ∷ xs) ys zs = ap (x ∷◌) (append_assoc xs ys zs)

-- One write, seen from a name: it joins the group of that name, or leaves it as it was.
module _ (sc : KeyedSatellite) (patch : Data) where
  writes-add_to :
      (o : Option Group)
      → group_writes (some (add_to sc patch o)) ≡ group_writes o ++ (write_of sc patch ∷ [])
  writes-add_to none = refl
  writes-add_to (some g) = refl

  table-add_to :
      (name : String) (o : Option Group)
      → qualified sc.table ≡ name
      → ((g : Group) → o ≡ some g → qualified g.table ≡ name)
      → qualified (add_to sc patch o).table ≡ name
  table-add_to name none e h = e
  table-add_to name (some g) e h = h g refl

  added_if :
      (b : Bool) (name : String) (groups : Map Group)
      → (b ≡ true → qualified sc.table ≡ name)
      → group_writes (
          if b
          then some (add_to sc patch (lookup (qualified sc.table) groups))
          else lookup name groups)
        ≡ writes_to name groups ++ (if b then write_of sc patch ∷ [] else [])
  added_if true name groups e =
      writes-add_to _ ∙ ap (λ n. writes_to n groups ++ (write_of sc patch ∷ [])) (e refl)
  added_if false name groups e = sym (append_nil _)

  named_if :
      (b : Bool) (name : String) (g : Group) (groups : Map Group)
      → (b ≡ true → qualified sc.table ≡ name)
      → IsNamed groups
      → (if b
          then some (add_to sc patch (lookup (qualified sc.table) groups))
          else lookup name groups)
        ≡ some g
      → qualified g.table ≡ name
  named_if true name g groups e h p =
      ap (λ g. qualified g.table) (sym (some_inj p))
      ∙ table-add_to name (lookup (qualified sc.table) groups) (e refl)
          (λ g q. h (qualified sc.table) g q ∙ e refl)
  named_if false name g groups e h p = h name g p

  writes_to-add_write :
      (name : String) (groups : Map Group)
      → writes_to name (add_write sc patch groups)
        ≡ writes_to name groups ++ own_write name (some sc) (some patch)
  unfolding add_write group_key
  writes_to-add_write name groups =
      ap group_writes (lookup-insert (qualified sc.table) name _ groups)
      ∙ added_if (qualified sc.table == name) name groups (eq_iff (qualified sc.table) name).0

  IsNamed-add_write : (groups : Map Group) → IsNamed groups → IsNamed (add_write sc patch groups)
  unfolding add_write group_key
  IsNamed-add_write groups h name g p =
      named_if (qualified sc.table == name) name g groups (eq_iff (qualified sc.table) name).0 h
        (sym (lookup-insert (qualified sc.table) name _ groups) ∙ p)

  distinct-add_write :
      (groups : Map Group) → HasDistinctKeys groups → HasDistinctKeys (add_write sc patch groups)
  unfolding add_write
  distinct-add_write groups d = HasDistinctKeys-insert _ _ groups d

writes_to-add_cell :
    (name : String) (sc : Option KeyedSatellite) (patch : Option Data) (groups : Map Group)
    → writes_to name (add_cell sc patch groups) ≡ writes_to name groups ++ own_write name sc patch
writes_to-add_cell name none patch groups = sym (append_nil _)
writes_to-add_cell name (some sc) none groups = sym (append_nil _)
writes_to-add_cell name (some sc) (some patch) groups = writes_to-add_write sc patch name groups

-- The groups have the names of their tables, and no name twice.
abbrev AreTables : Map Group → Type 0
AreTables groups = IsNamed groups × HasDistinctKeys groups

AreTables-add_cell :
    (sc : Option KeyedSatellite) (patch : Option Data) (groups : Map Group)
    → AreTables groups
    → AreTables (add_cell sc patch groups)
AreTables-add_cell none patch groups h = h
AreTables-add_cell (some sc) none groups h = h
AreTables-add_cell (some sc) (some patch) groups (n, d) =
    (IsNamed-add_write sc patch groups n, distinct-add_write sc patch groups d)

no_groups : IsNamed []
unfolding lookup
no_groups name g p = absurd (cc)

module _ {S T : Type 0} where
  writes_to-from :
      (name : String) (cols : List (Named S T)) (input : Data) (groups : Map Group)
      → writes_to name (keyed_groups cols input groups)
        ≡ writes_to name groups ++ asked_writes name cols input
  unfolding keyed_groups
  writes_to-from name [] input groups = sym (append_nil _)
  writes_to-from name (c ∷ cols) input groups =
      writes_to-from name cols input _
      ∙ ap (◌++ asked_writes name cols input)
          (writes_to-add_cell name c.column.satellite (as_patch (lookup c.name input)) groups)
      ∙ append_assoc (writes_to name groups) _ _

  AreTables-from :
      (cols : List (Named S T)) (input : Data) (groups : Map Group)
      → AreTables groups
      → AreTables (keyed_groups cols input groups)
  unfolding keyed_groups
  AreTables-from [] input groups h = h
  AreTables-from (c ∷ cols) input groups h =
      AreTables-from cols input _ (AreTables-add_cell _ _ groups h)

  -- The groups of a save are those of its side tables: each stands under the qualified name of its
  -- own table, no two have one name, and the writes of a group are, in their order, those of all
  -- cells over a table of that name whose value is a map, each with its column, its clearing and
  -- its patch.
  pub writes_to-keyed_groups :
      (cols : List (Named S T)) (input : Data)
      → ((name : String)
          → writes_to name (keyed_groups cols input []) ≡ asked_writes name cols input)
        × IsNamed (keyed_groups cols input [])
        × HasDistinctKeys (keyed_groups cols input [])
  unfolding lookup
  writes_to-keyed_groups cols input =
      let (named, distinct) = AreTables-from cols input [] (no_groups, tt) in
      ((λ name. writes_to-from name cols input []), named, distinct)
