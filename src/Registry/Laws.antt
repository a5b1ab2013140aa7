-- ===== src/Registry/Laws.antt =====
-- What a registry holds, and when it is built.
use editrig_go.Base.{
  ◌≡◌, ◌≢◌, refl, sym, ◌∙◌, true, false, Option, none, some, arith, List, [], ◌∷◌, if◌then◌else◌,
  String, ◌==◌, eq_iff, mem_text, is_some, All, ◌↔◌,
}
use editrig_go.Map.{Map, lookup, insert, has}
use editrig_go.Map.Laws.{lookup-insert}
use editrig_go.Entity.{Entity}
use editrig_go.Registry.{built, validate_entity, register, new_registry, get}

module _ {S : Type 0} where
  -- The first entity of a name, in registration order.
  abbrev pub find_named : String → List (Entity S) → Option (Entity S)
  find_named k [] = none
  find_named k (e ∷ es) = if e.name == k then some e else find_named k es

  abbrev pub entity_names : List (Entity S) → List String
  entity_names [] = []
  entity_names (e ∷ es) = e.name ∷ entity_names es

  -- What the engine relies on when it serves an entity.
  abbrev pub IsServable : Entity S → Type 0
  IsServable e = (e.name ≢ "") × (is_some e.schema ≡ true) × (is_some e.load ≡ true)

  validate_entity-IsServable : (e : Entity S) → validate_entity e ≡ none → IsServable e
  unfolding validate_entity
  validate_entity-IsServable e h = ground (arith, eq_iff e.name "")

  lookup-register :
      (es : List (Entity S)) (reg reg' : Map (Entity S)) (k : String)
      → register es reg ≡ built reg'
      → lookup k reg' ≡ (if has k reg then lookup k reg else find_named k es)
  unfolding register
  lookup-register [] reg reg' k h = ground arith
  lookup-register (e ∷ es) reg reg' k h = ground (
    arith,
    lookup-register es (insert e.name e reg) reg' k,
    lookup-insert e.name k e reg,
    eq_iff e.name k,
  )

  find_named-IsServable :
      (es : List (Entity S)) (reg reg' : Map (Entity S)) (k : String) (e : Entity S)
      → register es reg ≡ built reg'
      → find_named k es ≡ some e
      → IsServable e × (e.name ≡ k)
  unfolding register
  find_named-IsServable [] reg reg' k e h f = cc
  find_named-IsServable (d ∷ es) reg reg' k e h f = ground (
    arith,
    find_named-IsServable es (insert d.name d reg) reg' k e,
    validate_entity-IsServable d,
    eq_iff d.name k,
  )

  -- When a registry is built, looking a name up returns the registered entity of that name, if
  -- there is one; and what a lookup returns has that name, which is not empty, and a `Schema` and a
  -- `Load` hook.
  pub get-new_registry :
      (es : List (Entity S)) (reg : Map (Entity S)) (k : String)
      → new_registry es ≡ built reg
      → (get reg k ≡ find_named k es)
        × ((e : Entity S) → get reg k ≡ some e → IsServable e × (e.name ≡ k))
  unfolding new_registry get lookup
  get-new_registry es reg k h = (
    lookup-register es [] reg k h,
    λ e f. find_named-IsServable es [] reg k e h (sym (lookup-register es [] reg k h) ∙ f),
  )

  abbrev pub HasDistinctNames : List (Entity S) → Type 0
  HasDistinctNames [] = Unit
  HasDistinctNames (e ∷ es) = (mem_text e.name (entity_names es) ≡ false) × HasDistinctNames es

  -- None of the entities has a name that the registry holds.
  abbrev IsDisjoint : List (Entity S) → Map (Entity S) → Type 0
  IsDisjoint [] reg = Unit
  IsDisjoint (e ∷ es) reg = (has e.name reg ≡ false) × IsDisjoint es reg

  IsDisjoint-nil : (es : List (Entity S)) → IsDisjoint es []
  unfolding lookup
  IsDisjoint-nil [] = tt
  IsDisjoint-nil (e ∷ es) = (refl, IsDisjoint-nil es)

  validate_entity_of_IsServable : (e : Entity S) → IsServable e → validate_entity e ≡ none
  unfolding validate_entity
  validate_entity_of_IsServable e h = ground (arith, eq_iff e.name "")

  IsDisjoint-insert :
      (e : Entity S) (es : List (Entity S)) (reg : Map (Entity S))
      → IsDisjoint es reg
      → mem_text e.name (entity_names es) ≡ false
      → IsDisjoint es (insert e.name e reg)
  IsDisjoint-insert e [] reg d m = tt
  IsDisjoint-insert e (f ∷ es) reg (d, ds) m = (
    ground (arith, lookup-insert e.name f.name e reg, eq_iff e.name f.name, eq_iff f.name e.name),
    IsDisjoint-insert e es reg ds (ground arith),
  )

  register_total :
      (es : List (Entity S)) (reg : Map (Entity S))
      → All IsServable es
      → HasDistinctNames es
      → IsDisjoint es reg
      → (reg' : Map (Entity S)) × (register es reg ≡ built reg')
  unfolding register
  register_total [] reg s n d = (reg, refl)
  register_total (e ∷ es) reg (s, ss) (n, ns) (d, ds) =
      let (reg', done) =
        register_total es (insert e.name e reg) ss ns (IsDisjoint-insert e es reg ds n) in
      (reg', ground (arith, validate_entity_of_IsServable e s))

  IsDisjoint-of_insert :
      (e : Entity S) (es : List (Entity S)) (reg : Map (Entity S))
      → IsDisjoint es (insert e.name e reg)
      → IsDisjoint es reg × (mem_text e.name (entity_names es) ≡ false)
  IsDisjoint-of_insert e [] reg d = (tt, refl)
  IsDisjoint-of_insert e (f ∷ es) reg (d, ds) =
      let (rest, apart) = IsDisjoint-of_insert e es reg ds in
      (
        (ground (arith, lookup-insert e.name f.name e reg, eq_iff e.name f.name), rest),
        ground
            (arith, lookup-insert e.name f.name e reg, eq_iff e.name f.name, eq_iff f.name e.name),
      )

  register_sound :
      (es : List (Entity S)) (reg reg' : Map (Entity S))
      → register es reg ≡ built reg'
      → All IsServable es × HasDistinctNames es × IsDisjoint es reg
  unfolding register
  register_sound [] reg reg' h = (tt, tt, tt)
  register_sound (e ∷ es) reg reg' h =
      let (ss, ns, ds) = register_sound es (insert e.name e reg) reg' (ground arith) in
      let (rest, apart) = IsDisjoint-of_insert e es reg ds in
      ((validate_entity-IsServable e (ground arith), ss), (apart, ns), (ground arith, rest))

  -- A registry is built exactly if every entity has a name, a `Schema` and a `Load` hook, and no two
  -- have the same name.
  pub new_registry_iff :
      (es : List (Entity S))
      → ((reg : Map (Entity S)) × (new_registry es ≡ built reg))
        ↔ (All IsServable es × HasDistinctNames es)
  unfolding new_registry
  new_registry_iff es = (
    λ b. let (ss, ns, _) = register_sound es [] b.0 b.1 in (ss, ns),
    λ c. register_total es [] c.0 c.1 (IsDisjoint-nil es),
  )
