-- ===== src/Jet/Table/Once.antt =====
-- The two phases of a write, over the whole table: which fields the first one assigns, and which
-- cells the second one saves.
use editrig_go.Base.{◌≡◌, ◌&&◌, List}
use editrig_go.Map.{lookup}
use editrig_go.Json.{Data}
use editrig_go.Jet.Table.{Named, is_assigned, is_deferred}
use editrig_go.Jet.Table.Mentions.{parses, any_assigns, any_deferred}

module _ {S T : Type 0} where
  module _ (input : Data) where
    -- A cell of the table is the only one that its name stands for.
    IsOnly : Named S T → List (Named S T) → Type 0
    IsOnly c cols =
        (any_assigns input c.name cols ≡ (
          is_assigned c.column (lookup c.name input)
          && parses (lookup c.name input) c.column.assign))
        × (any_deferred input c.name cols ≡ is_deferred c.column (lookup c.name input))
