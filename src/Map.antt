-- ===== src/Map.antt =====
-- Go's `map[string]V` as an association list. A `range` visits the entries in the list's order,
-- which stands for one of the orders that Go may choose.
pub mod Laws
use editrig_go.Base.{Bool, Option, none, some, List, [], ◌∷◌, String, ◌==◌, if◌then◌else◌, is_some}

abbrev pub Map {ℓ} : Type ℓ → Type ℓ
Map V = List (String × V)

module _ {ℓ} {V : Type ℓ} where
  -- `v, ok := m[k]`.
  unfoldable pub lookup : String → Map V → Option V
  lookup key [] = none
  lookup key ((name, v) ∷ rest) = if name == key then some v else lookup key rest

  -- `m[k] = v`.
  unfoldable pub insert : String → V → Map V → Map V
  insert key new [] = (key, new) ∷ []
  insert key new ((name, old) ∷ rest) =
      let more = insert key new rest in
      if name == key then (key, new) ∷ rest else (name, old) ∷ more

  -- `delete(m, k)`.
  unfoldable pub delete : String → Map V → Map V
  delete k [] = []
  delete k ((j, v) ∷ m) = let rest = delete k m in if j == k then rest else (j, v) ∷ rest

  -- `maps.Copy(dst, src)`, with `src` first.
  unfoldable pub copy_into : Map V → Map V → Map V
  copy_into [] dst = dst
  copy_into ((k, v) ∷ src) dst = copy_into src (insert k v dst)

  unfoldable pub keys : Map V → List String
  keys [] = []
  keys ((k, v) ∷ m) = k ∷ keys m

  abbrev pub has : String → Map V → Bool
  has k m = is_some (lookup k m)
