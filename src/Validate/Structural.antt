-- ===== src/Validate/Structural.antt =====
-- validate/structural.go. The JSON Schema compiler and validator are a package of their own, so
-- they are a parameter; the walk over the error tree that they return is the repository's.
pub mod Leaves
use editrig_go.Base.{
  Bool, String, Option, none, some, List, [], ◌∷◌, ◌++◌, map, if◌then◌else◌, ◌==◌, is_empty,
}
use editrig_go.Text.{join, ◌+++◌}
use editrig_go.Json.{Value, Data, Raw, obj, of_members}
use editrig_go.Validate.{FieldError}

-- `kind.Required` with the missing names, or any other kind under a name of its own.
pub data ErrorKind : Type 0 where
  required : List String → ErrorKind
  other : String → ErrorKind

-- `jsonschema.ValidationError`: the location, the kind and the causes.
mutual
  pub data ValidationError : Type 0 where
    failure : List String → ErrorKind → Causes → ValidationError

  pub data Causes : Type 0 where
    no_cause : Causes
    cause : ValidationError → Causes → Causes

-- What `Validate` of a compiled schema returns.
pub data Verdict : Type 0 where
  valid : Verdict
  invalid : ValidationError → Verdict
  broken : Verdict

-- santhosh-tekuri/jsonschema: `UnmarshalJSON`, `AddResource`, `Compile`, `Validate` and the English
-- text of an error kind.
pub record SchemaEngine : Type 1 where
  pub Document : Type 0
  pub Compiled : Type 0
  pub unmarshal_json : Raw → Option Document
  pub add_resource : Document → Bool
  pub compile_resource : Document → Option Compiled
  pub run : Compiled → Value → Verdict
  pub localized : ErrorKind → String

-- The location of a missing key, which the package reports at the object that lacks it.
abbrev pub missing_error : String → String → String → FieldError
missing_error base message key = record {
  field = (if base == "/" then "" else base) +++ "/" +++ key;
  message = message;
}

module _ (engine : SchemaEngine) where
  open engine use {Compiled, unmarshal_json, add_resource, compile_resource, run, localized}

  unfoldable pub leaf_errors : List String → ErrorKind → List FieldError
  leaf_errors location (required missing) =
      map (missing_error ("/" +++ join "/" location) (localized (required missing))) missing
  leaf_errors location (other kind) =
      record { field = "/" +++ join "/" location; message = localized (other kind) } ∷ []

  unfoldable mutual
    pub collect_leaves : ValidationError → List FieldError
    collect_leaves (failure location kind no_cause) = leaf_errors location kind
    collect_leaves (failure location kind (cause first rest)) =
        collect_leaves first ++ collect_causes rest

    pub collect_causes : Causes → List FieldError
    collect_causes no_cause = []
    collect_causes (cause first rest) = collect_leaves first ++ collect_causes rest

  unfoldable pub compile : Raw → Option Compiled
  compile schema = elim (unmarshal_json schema) [
    | none ↦ none
    | some document ↦ if add_resource document then compile_resource document else none
  ]

  unfoldable pub verdict_errors : Verdict → Option (List FieldError)
  verdict_errors valid = some []
  verdict_errors (invalid tree) = some (collect_leaves tree)
  verdict_errors broken = none

  -- `none` is the error that the schema is not usable.
  unfoldable pub structural : Raw → Data → Option (List FieldError)
  structural schema payload = elim (compile schema) [
    | none ↦ none
    | some compiled ↦ verdict_errors (run compiled (obj (of_members payload)))
  ]
