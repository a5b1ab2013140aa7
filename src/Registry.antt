-- ===== src/Registry.antt =====
-- registry.go: the set of entities by name.
pub mod Laws
pub mod Names
use editrig_go.Base.{
  ℕ, Bool, true, false, Option, none, some, List, [], ◌∷◌, String, ◌==◌, if◌then◌else◌, is_some,
}
use editrig_go.Text.Sort.{sort_strings}
use editrig_go.Map.{Map, lookup, insert, has, keys}
use editrig_go.Entity.{Entity}

-- Why `NewRegistry` refuses, with the name that its message quotes.
pub data Refusal : Type 0 where
  empty_name : Refusal
  nil_hook : String → Refusal
  duplicate : String → Refusal

pub data Built {ℓ} (A : Type ℓ) : Type ℓ where
  built : A → Built A
  refused : Refusal → Built A

module _ {S : Type 0} where
  unfoldable pub validate_entity : Entity S → Option Refusal
  validate_entity e =
      if e.name == ""
      then some empty_name
      else if is_some e.schema
      then if is_some e.load then none else some (nil_hook e.name)
      else some (nil_hook e.name)

  -- The loop of `NewRegistry` over the entities that are left.
  unfoldable pub register : List (Entity S) → Map (Entity S) → Built (Map (Entity S))
  register [] reg = built reg
  register (e ∷ rest) reg =
      let next = register rest (insert e.name e reg) in
      elim (validate_entity e) [
        | some why ↦ refused why
        | none ↦ if has e.name reg then refused (duplicate e.name) else next
      ]

  unfoldable pub new_registry : List (Entity S) → Built (Map (Entity S))
  new_registry entities = register entities []

  unfoldable pub get : Map (Entity S) → String → Option (Entity S)
  get reg name = lookup name reg

  unfoldable pub names : Map (Entity S) → List String
  names reg = sort_strings (keys reg)
