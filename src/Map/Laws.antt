-- ===== src/Map/Laws.antt =====
-- The laws of a map in terms of `lookup`.
use editrig_go.Base.{
  ◌∙◌, false, Option, none, some, [], ◌∷◌, String, ◌==◌, ◌≡◌, refl, arith, eq_iff, eq_refl, ◌||◌,
  mem_text, if◌then◌else◌,
}
use editrig_go.Map.{Map, lookup, insert, delete, copy_into, keys, has}

module _ {ℓ} {V : Type ℓ} where
  pub lookup-insert :
      (key asked : String) (new : V) (m : Map V)
      → lookup asked (insert key new m) ≡ (if key == asked then some new else lookup asked m)
  unfolding lookup insert
  lookup-insert key asked new [] = refl
  lookup-insert key asked new ((name, old) ∷ rest) = ground (
    arith,
    eq_iff key asked,
    eq_iff name key,
    eq_iff name asked,
    lookup-insert key asked new rest,
  )

  pub lookup-delete :
      (k j : String) (m : Map V) → lookup j (delete k m) ≡ (if k == j then none else lookup j m)
  unfolding lookup delete
  lookup-delete k j [] = ground arith
  lookup-delete k j ((i, w) ∷ m) =
      ground (arith, eq_iff k j, eq_iff i k, eq_iff i j, lookup-delete k j m)

  pub has-insert : (k j : String) (v : V) (m : Map V) → has j (insert k v m) ≡ (k == j || has j m)
  has-insert k j v m = ground (arith, lookup-insert k j v m)

  -- `delete` of a missing key changes no lookup, and one of `k` leaves the others.
  pub lookup-delete_self : (k : String) (m : Map V) → lookup k (delete k m) ≡ none
  lookup-delete_self k m = ground (arith, lookup-delete k k m, eq_refl k)

  pub mem_text-keys : (k : String) (m : Map V) → mem_text k (keys m) ≡ has k m
  unfolding keys lookup
  mem_text-keys k [] = refl
  mem_text-keys k ((j, v) ∷ m) = ground (arith, mem_text-keys k m)

  -- No key twice, as in every Go map.
  abbrev pub HasDistinctKeys : Map V → Type 0
  HasDistinctKeys [] = Unit
  HasDistinctKeys ((k, v) ∷ m) = (has k m ≡ false) × HasDistinctKeys m

  abbrev pub or_else : Option V → Option V → Option V
  or_else none o = o
  or_else (some v) o = some v

  pub lookup-copy_into :
      (src dst : Map V) (k : String)
      → HasDistinctKeys src
      → lookup k (copy_into src dst) ≡ or_else (lookup k src) (lookup k dst)
  unfolding copy_into lookup
  lookup-copy_into [] dst k d = refl
  lookup-copy_into ((j, v) ∷ src) dst k (apart, d) =
      lookup-copy_into src (insert j v dst) k d
      ∙ ground (arith, lookup-insert j k v dst, eq_iff j k)
