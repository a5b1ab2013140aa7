-- ===== src/Jet/Table/Total.antt =====
-- Reads do not panic.
use editrig_go.Base.{
  ◌≡◌, refl, ap, subst, sym, ◌∙◌, Bool, true, false, not, Option, none, some, List, [], ◌∷◌, String,
  is_some, is_empty, length, nat_eq, All, if◌then◌else◌,
}
use editrig_go.Map.{insert}
use editrig_go.Json.{Value, Data}
use editrig_go.Jet.Sql.{
  Database, Projection, Query, Scanned, Reader, Ran, ok, failed, crashed, is_crashed, ◌>>→◌,
}
use editrig_go.Jet.Values.{Library}
use editrig_go.Jet.Column.{Column, is_satellite}
use editrig_go.Jet.Table.{
  Table, table_column, split_keys, projs_of, row_sql, is_outside, projection_of, cons_projection,
}
use editrig_go.Jet.Table.Row.{
  row, row_cols, exists, main_row, load_satellites, with_satellites, first_row, load_cell,
  load_with, one_bool,
}
use editrig_go.Jet.Table.{where_id}

abbrev Runs : {A : Type 0} → Ran A → Type 0
Runs r = is_crashed r ≡ false

bind-Runs :
    {A B : Type 0} (r : Ran A) (f : A → Ran B) → Runs r → ((a : A) → Runs (f a)) → Runs (r >>→ f)
bind-Runs (ok a) f h k = k a
bind-Runs (failed e) f h k = refl
bind-Runs crashed f h k = absurd (cc)

if_Runs : {A : Type 0} (b : Bool) (x y : Ran A) → Runs x → Runs y → Runs (if b then x else y)
if_Runs true x y h k = h
if_Runs false x y h k = k

true_of_not : (b : Bool) → not b ≡ false → b ≡ true
true_of_not true e = refl
true_of_not false e = absurd (cc)

one_bool-Runs : (rows : List (List Scanned)) → Runs (one_bool rows)
one_bool-Runs [] = refl
one_bool-Runs ([] ∷ rows) = refl
one_bool-Runs ((v ∷ []) ∷ rows) = refl
one_bool-Runs ((v ∷ w ∷ vs) ∷ rows) = refl

cons_some :
    (o : Option Projection) (rest : Option (List Projection))
    → is_some o ≡ true
    → is_some rest ≡ true
    → (p : Projection) × (ps : List Projection) × (cons_projection o rest ≡ some (p ∷ ps))
cons_some none rest h k = absurd (cc)
cons_some (some p) none h k = absurd (cc)
cons_some (some p) (some ps) h k = (p, ps, refl)

module _ {S T : Type 0} where
  -- A cell whose value can be read: it has a projection, or its own query does not panic.
  pub record IsReadable (c : Column S T) : Type 0 where
    pub load :
        is_satellite c ≡ true
        → (f : String → Reader S Value) × (c.load ≡ some f)
          × ((id : String) (s : S) → is_crashed (f id s) ≡ false)

  -- A declared key with a cell that can be read.
  abbrev pub Readable : Table S T → String → Type 0
  Readable t k = (c : Column S T) × (table_column t k ≡ some c) × IsReadable c

  -- A column-backed key.
  abbrev Projected : Table S T → String → Type 0
  Projected t k = is_some (projection_of (table_column t k)) ≡ true

  projs_some :
      (t : Table S T) (ks : List String) → All (Projected t) ks → is_some (projs_of t ks) ≡ true
  unfolding projs_of
  projs_some t [] a = refl
  projs_some t (k ∷ ks) (h, a) =
      let (p, ps, e) = cons_some _ _ h (projs_some t ks a) in ap is_some e

  row_sql_some :
      (t : Table S T) (k : String) (ks : List String) (id : String)
      → All (Projected t) (k ∷ ks)
      → is_some (row_sql t (k ∷ ks) id) ≡ true
  unfolding row_sql projs_of
  row_sql_some t k ks id (h, a) =
      let (p, ps, e) = cons_some _ _ h (projs_some t ks a) in
      ap
        (λ (o : Option (List Projection)). is_some (elim o [
          | none ↦ none
          | some qs ↦ if is_empty qs then none else some (Query.select qs t.src (where_id t id) [])
        ]))
        e

module _ (lib : Library) {S T : Type 0} (db : Database S T) (t : Table S T) where
  -- The key of a satellite.
  abbrev Loaded : String → Type 0
  Loaded k = (id : String) (s : S) → Runs (load_cell lib db (table_column t k) id s)

  load_with-Runs :
      (c : Column S T)
      → is_satellite c ≡ true
      → IsReadable c
      → (id : String) (s : S) → Runs (load_cell lib db (some c) id s)
  load_with-Runs c h r id s =
      let (f, e, g) = r.load h in
      subst (λ (o : Option (String → Reader S Value)). Runs (load_with o id s)) (sym e) (g id s)

  abbrev Parts : List String × List String → Type 0
  Parts p = All (Projected t) p.0 × All Loaded p.1

  split_one :
      (k : String) (b : Bool) (cols sats : List String)
      → is_outside (table_column t k) ≡ b
      → Readable t k
      → Parts (cols, sats)
      → Parts (if b then (cols, k ∷ sats) else (k ∷ cols, sats))
  unfolding is_satellite
  split_one k true cols sats e (c, p, r) (a, l) = (
    a,
    (
      (λ id s.
          subst (λ (o : Option (Column S T)). Runs (load_cell lib db o id s)) (sym p)
            (load_with-Runs c (sym (ap is_outside p) ∙ e) r id s)),
      l,
    ),
  )
  split_one k false cols sats e (c, p, r) (a, l) = (
    (
      ap (λ (o : Option (Column S T)). is_some (projection_of o)) p
          ∙ true_of_not _ (sym (ap is_outside p) ∙ e),
      a,
    ),
    l,
  )

  split-Parts : (ks : List String) → All (Readable t) ks → Parts (split_keys t ks)
  unfolding split_keys
  split-Parts [] a = (tt, tt)
  split-Parts (k ∷ ks) (r, a) = split_one k _ _ _ refl r (split-Parts ks a)

  -- A split of a key and more keys is not empty.
  abbrev HasKey : List String × List String → Type 0
  HasKey p = is_empty p.1 ≡ true → is_empty p.0 ≡ false

  split_empty :
      (k : String) (b : Bool) (cols sats : List String)
      → HasKey (if b then (cols, k ∷ sats) else (k ∷ cols, sats))
  split_empty k true cols sats e = absurd (cc)
  split_empty k false cols sats e = refl

  module _ (never : (q : Query) (s : S) → is_crashed (db.query q s) ≡ false) where
    first_row-Runs :
        (ks : List String) (rows : List (List Scanned)) → Runs (first_row lib t ks rows)
    unfolding first_row
    first_row-Runs ks [] = refl
    first_row-Runs ks (vals ∷ rows) = if_Runs (nat_eq (length vals) (length ks)) _ _ refl refl

    query-Runs :
        (o : Option Query) (ks : List String) (s : S)
        → is_some o ≡ true
        → Runs (elim o [ none ↦ crashed | some q ↦ db.query q s >>→ first_row lib t ks ])
    query-Runs none ks s h = absurd (cc)
    query-Runs (some q) ks s h = bind-Runs _ _ (never q s) (first_row-Runs ks)

    row_cols-Runs :
        (ks : List String) (id : String) (s : S)
        → is_empty ks ≡ false
        → All (Projected t) ks
        → Runs (row_cols lib db t ks id s)
    unfolding row_cols
    row_cols-Runs [] id s e a = absurd (cc)
    row_cols-Runs (k ∷ ks) id s e a = query-Runs _ (k ∷ ks) s (row_sql_some t k ks id a)

    main_row-Runs :
        (ks : List String) (id : String) (s : S) (b : Bool)
        → is_empty ks ≡ b
        → All (Projected t) ks
        → Runs (
            if b
            then (exists lib db t id s >>→ λ found. ok (if found then some [] else none))
            else row_cols lib db t ks id s)
    unfolding exists
    main_row-Runs ks id s true e a =
        bind-Runs _ _ (bind-Runs _ _ (never _ s) one_bool-Runs) (λ found. refl)
    main_row-Runs ks id s false e a = row_cols-Runs ks id s e a

    load_satellites-Runs :
        (ks : List String) (id : String) (out : Data) (s : S)
        → All Loaded ks
        → Runs (load_satellites lib db t ks id out s)
    unfolding load_satellites
    load_satellites-Runs [] id out s l = refl
    load_satellites-Runs (k ∷ ks) id out s (h, l) =
        bind-Runs _ _ (h id s) (λ v. load_satellites-Runs ks id (insert k v out) s l)

    with_satellites-Runs :
        (ks : List String) (id : String) (out : Option Data) (s : S)
        → All Loaded ks
        → Runs (with_satellites lib db t ks id out s)
    with_satellites-Runs ks id none s l = refl
    with_satellites-Runs ks id (some out) s l =
        bind-Runs _ _ (load_satellites-Runs ks id out s l) (λ row. refl)

    row-Parts-Runs :
        (p : List String × List String) (id : String) (s : S) (b : Bool)
        → is_empty p.1 ≡ b
        → HasKey p
        → Parts p
        → Runs (
            if b
            then row_cols lib db t p.0 id s
            else (main_row lib db t p.0 id s >>→ λ out. with_satellites lib db t p.1 id out s))
    unfolding main_row
    row-Parts-Runs p id s true e n (a, l) = row_cols-Runs p.0 id s (n e) a
    row-Parts-Runs p id s false e n (a, l) =
        bind-Runs _ _ (main_row-Runs p.0 id s _ refl a) (λ out. with_satellites-Runs p.1 id out s l)

    -- `Row` of at least one key, where each key is declared with a cell that can be read, does not
    -- panic if a query does not: it returns a row, no row or an error.
    pub row-Runs :
        (ks : List String) (id : String) (s : S)
        → is_empty ks ≡ false
        → All (Readable t) ks
        → is_crashed (row lib db t ks id s) ≡ false
    unfolding row split_keys
    row-Runs [] id s e a = absurd (cc)
    row-Runs (k ∷ ks) id s e (r, a) =
        row-Parts-Runs (split_keys t (k ∷ ks)) id s _ refl
          (split_empty k (is_outside (table_column t k)) _ _) (split-Parts (k ∷ ks) (r, a))
