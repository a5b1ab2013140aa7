-- ===== src/Registry/Names.antt =====
-- The names of a registry do not depend on the order of registration.
use mathlib.Core.List.{Perm}
use mathlib.Core.List.Perm
use mathlib.Core.List.{append-nil, append_assoc}
use editrig_go.Base.{
  ◌≡◌, refl, ap, sym, ◌∙◌, false, arith, List, [], ◌∷◌, ◌++◌, map, String, is_some, mem_text,
}
use editrig_go.Text.Sort.{sort_strings}
use editrig_go.Text.Sort.Laws.{
  IsSorted, sort_strings-IsSorted, mem_text-sort_strings, sort_strings_of_perm,
}
use editrig_go.Map.{Map, lookup, insert, has, keys}
use editrig_go.Map.Laws.{mem_text-keys}
use editrig_go.Entity.{Entity}
use editrig_go.Registry.{built, register, new_registry, get, names}

keys-insert {ℓ} :
    {V : Type ℓ} (k : String) (v : V) (m : Map V)
    → has k m ≡ false
    → keys (insert k v m) ≡ keys m ++ k ∷ []
unfolding keys insert lookup
keys-insert k v [] h = refl
keys-insert k v ((j, w) ∷ m) h = ground (arith, keys-insert k v m)

module _ {S : Type 0} where
  keys-register :
      (es : List (Entity S)) (reg reg' : Map (Entity S))
      → register es reg ≡ built reg'
      → keys reg' ≡ keys reg ++ map (λ e. e.name) es
  unfolding register
  keys-register [] reg reg' h = ground (arith, append-nil (keys reg))
  keys-register (e ∷ es) reg reg' h =
      keys-register es (insert e.name e reg) reg' (ground arith)
      ∙ ap (λ ks. ks ++ map (λ (d : Entity S). d.name) es) (keys-insert e.name e reg (ground arith))
      ∙ append_assoc (keys reg) (e.name ∷ []) (map (λ (d : Entity S). d.name) es)

  -- The names of a registry are sorted, they are the names that a lookup finds, and two registries
  -- that are built of the same entities in any two orders list the same names.
  pub names-new_registry :
      (es fs : List (Entity S)) (reg reg' : Map (Entity S))
      → new_registry es ≡ built reg
      → new_registry fs ≡ built reg'
      → Perm es fs
      → IsSorted (names reg)
        × ((k : String) → mem_text k (names reg) ≡ is_some (get reg k))
        × (names reg ≡ names reg')
  unfolding new_registry names get sort_strings keys
  names-new_registry es fs reg reg' h h' p = (
    sort_strings-IsSorted (keys reg),
    λ k. mem_text-sort_strings k (keys reg) ∙ mem_text-keys k reg,
    ap sort_strings (keys-register es [] reg h)
        ∙ sort_strings_of_perm (Perm.map (λ e. e.name) p)
        ∙ sym (ap sort_strings (keys-register fs [] reg' h')),
  )
