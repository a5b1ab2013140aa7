-- ===== src/Validate/Structural/Leaves.antt =====
-- The walk over the error tree loses no leaf.
use editrig_go.Base.{
  ℕ, suc, ◌+◌, ◌≤◌, ◌≡◌, ◌≢◌, refl, ap, ◌∙◌, some, List, [], ◌∷◌, ◌++◌, map, arith, length, String,
}
use editrig_go.Json
use editrig_go.Json.{Raw, Data}
use editrig_go.Validate.{FieldError}
use editrig_go.Validate.Structural.{
  ErrorKind, required, other, ValidationError, failure, Causes, no_cause, cause, invalid,
  SchemaEngine, leaf_errors, collect_leaves, collect_causes, structural, verdict_errors, compile,
}

-- How many errors a leaf stands for: one, or one for each missing key.
abbrev leaf_count : ErrorKind → ℕ
leaf_count (required missing) = length missing
leaf_count (other kind) = 1

unfoldable mutual
  pub violations : ValidationError → ℕ
  violations (failure location kind no_cause) = leaf_count kind
  violations (failure location kind (cause first rest)) = violations first + cause_violations rest

  pub cause_violations : Causes → ℕ
  cause_violations no_cause = 0
  cause_violations (cause first rest) = violations first + cause_violations rest

length-append {ℓ} : {A : Type ℓ} (xs ys : List A) → length (xs ++ ys) ≡ length xs + length ys
length-append [] ys = omega arith
length-append (x ∷ xs) ys = omega (arith, length-append xs ys)

length-map {ℓ κ} :
    {A : Type ℓ} {B : Type κ} (f : A → B) (xs : List A) → length (map f xs) ≡ length xs
length-map f [] = refl
length-map f (x ∷ xs) = ap suc (length-map f xs)

module _ (engine : SchemaEngine) where
  length-leaf_errors :
      (location : List String) (kind : ErrorKind)
      → length (leaf_errors engine location kind) ≡ leaf_count kind
  unfolding leaf_errors
  length-leaf_errors location (required missing) = length-map _ missing
  length-leaf_errors location (other kind) = refl

  mutual
    unfolding collect_leaves violations

    length-collect_tree :
        (tree : ValidationError) → length (collect_leaves engine tree) ≡ violations tree
    length-collect_tree (failure location kind no_cause) = length-leaf_errors location kind
    length-collect_tree (failure location kind (cause first rest)) =
        length-append (collect_leaves engine first) (collect_causes engine rest)
        ∙ omega (arith, length-collect_tree first, length-collect_causes rest)

    length-collect_causes :
        (causes : Causes) → length (collect_causes engine causes) ≡ cause_violations causes
    length-collect_causes no_cause = refl
    length-collect_causes (cause first rest) =
        length-append (collect_leaves engine first) (collect_causes engine rest)
        ∙ omega (arith, length-collect_tree first, length-collect_causes rest)

  -- The walk returns as many errors as the tree has leaves, where a leaf of missing keys counts
  -- once for each of its keys.
  length-collect_leaves :
      (tree : ValidationError) → length (collect_leaves engine tree) ≡ violations tree
  length-collect_leaves tree = length-collect_tree tree

  -- When the schema compiles, and the validator refuses the payload with a tree that has a leaf with a
  -- violation, `Structural` returns at least one error.
  pub structural_rejects :
      (schema : Raw) (payload : Data) (compiled : engine.Compiled) (tree : ValidationError)
      → compile engine schema ≡ some compiled
      → engine.run compiled (Json.obj (Json.of_members payload)) ≡ invalid tree
      → 1 ≤ violations tree
      → (fe : List FieldError) × (structural engine schema payload ≡ some fe) × (fe ≢ [])
  unfolding structural verdict_errors
  structural_rejects schema payload compiled tree c r v = (
    collect_leaves engine tree,
    ground arith,
    λ e. absurd (omega (arith, length-collect_leaves tree, ap length e)),
  )
