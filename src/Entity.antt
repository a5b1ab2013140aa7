-- ===== src/Entity.antt =====
-- types.go: an entity as a record of hooks. A hook reads and changes the application's store `S`,
-- and what another client does to the store meanwhile is part of that change.
use editrig_go.Base.{Bool, Option, List, String}
use editrig_go.Map.{Map}
use editrig_go.Json.{Data, Raw}
use editrig_go.Validate.{FieldError}
use editrig_go.Errors.{Failure, Catalog}

-- `Option` of a relation field.
pub record Choice : Type 0 where
  pub value : String
  pub label : String

-- `OptionsQuery`; a limit is a natural number once it is clamped.
pub record OptionsQuery : Type 0 where
  pub search : String
  pub limit : Prim.Native.Nat.ℕ
  pub ids : List String
  pub parent : String

-- The results of the hooks, in the order in which Go returns them; `none` is nil.
pub record SchemaResult : Type 0 where
  pub schema : Raw
  pub ui_schema : Raw
  pub failure : Option Failure

pub record LoadResult : Type 0 where
  pub row : Option Data
  pub failure : Option Failure

pub record SaveResult : Type 0 where
  pub out_id : String
  pub field_errors : List FieldError
  pub failure : Option Failure

-- `Validate` may change the payload that it is given.
pub record ValidateResult : Type 0 where
  pub field_errors : List FieldError
  pub payload : Data

pub record OptionsResult : Type 0 where
  pub choices : Option (List Choice)
  pub failure : Option Failure

module _ (S : Type 0) where
  abbrev pub Hook : Type 0 → Type 0
  Hook R = S → R × S

  abbrev pub OptionSource : Type 0
  OptionSource = Catalog → OptionsQuery → Hook OptionsResult

  pub record Entity : Type 0 where
    pub name : String
    pub disable_create : Bool
    pub disable_update : Bool
    pub disable_delete : Bool
    pub schema : Option (Catalog → Option Data → Hook SchemaResult)
    pub load : Option (String → Hook LoadResult)
    pub save : Option (Option String → Data → Hook SaveResult)
    pub delete : Option (String → Hook (Option Failure))
    pub validate : Option (Catalog → Option String → Data → Hook ValidateResult)
    pub options : Map OptionSource
