-- ===== src/Jet/Child/Rows/Owned.antt =====
-- Whose rows a list of objects may write.
use editrig_go.Base.{
  ℕ, suc, ◌≡◌, refl, Bool, true, false, not, ◌&&◌, ◌||◌, Option, none, some, List, [], ◌∷◌, String,
  ◌==◌, mem_text, if◌then◌else◌, arith, eq_refl,
}
use editrig_go.Map.{lookup}
use editrig_go.Json.{Value, Data}
use editrig_go.Jet.Satellite.{as_patch}
use editrig_go.Jet.Child.Rows.{resolve_ids, resolve_id, now_used, is_reused, new_or_empty, id_in}

-- Each owned id among the ids is one of the parent's and stands there once, and not among `used`.
abbrev pub AreOwnedOnce : List String → List String → List String → Type 0
AreOwnedOnce owned used [] = Unit
AreOwnedOnce owned used (id ∷ ids) =
    (mem_text id owned && mem_text id used ≡ false)
    × AreOwnedOnce owned (if mem_text id owned then id ∷ used else used) ids

-- The ids come from the parent's rows, from `NewID`, or are empty.
abbrev pub AreAllowed :
    Option (String → ℕ → String) → String → List String → ℕ → List String → Type 0
AreAllowed new key owned i [] = Unit
AreAllowed new key owned i (id ∷ ids) =
    ((mem_text id owned || id == "" || id == new_or_empty new key i) ≡ true)
    × AreAllowed new key owned (suc i) ids

reused_bools : (e o u : Bool) → (not e && o && not u) ≡ true → (o ≡ true) × (u ≡ false)
reused_bools false true false h = (refl, refl)
reused_bools true o u h = absurd (cc)
reused_bools false false u h = absurd (cc)
reused_bools false true true h = absurd (cc)

module _ (owned : List String) where
  once_reused :
      (id : String) (used ids : List String) (m u : Bool)
      → mem_text id owned ≡ m
      → mem_text id used ≡ u
      → m ≡ true
      → u ≡ false
      → AreOwnedOnce owned (id ∷ used) ids
      → (m && u ≡ false) × AreOwnedOnce owned (if m then id ∷ used else used) ids
  once_reused id used ids true false h k a b r = (refl, r)
  once_reused id used ids true true h k a b r = absurd (cc)
  once_reused id used ids false u h k a b r = absurd (cc)

  once_new :
      (id : String) (used ids : List String) (m : Bool)
      → m ≡ false
      → AreOwnedOnce owned used ids
      → (m && mem_text id used ≡ false) × AreOwnedOnce owned (if m then id ∷ used else used) ids
  once_new id used ids false h r = (refl, r)
  once_new id used ids true h r = absurd (cc)

  -- Neither the empty text nor a new id is an id of the parent's rows.
  abbrev pub AreFresh : Option (String → ℕ → String) → String → Type 0
  AreFresh new key =
      (mem_text "" owned ≡ false) × ((i : ℕ) → mem_text (new_or_empty new key i) owned ≡ false)

  module _ (new : Option (String → ℕ → String)) (key : String) (fresh : AreFresh new key) where
    once_resolved :
        (id : String) (used ids : List String) (i : ℕ) (b : Bool)
        → is_reused owned used id ≡ b
        → AreOwnedOnce owned (if b then id ∷ used else used) ids
        → AreOwnedOnce owned used ((if b then id else new_or_empty new key i) ∷ ids)
    unfolding is_reused
    once_resolved id used ids i true e r =
        let (m, u) = reused_bools (id == "") _ _ e in once_reused id used ids _ _ refl refl m u r
    once_resolved id used ids i false e r = once_new _ used ids _ (fresh.1 i) r

    once_item :
        (o : Option Data) (field : String) (i : ℕ) (used : List String) (vs : List Value)
        → ((i' : ℕ) (used' : List String)
            → AreOwnedOnce owned used' (resolve_ids new field owned key i' used' vs))
        → AreOwnedOnce owned used (elim o [
          | none ↦ "" ∷ resolve_ids new field owned key (suc i) used vs
          | some item ↦
              resolve_id new owned used key i (id_in (lookup field item))
              ∷ resolve_ids new field owned key
                  (suc i)
                  (now_used owned used (id_in (lookup field item)))
                  vs
        ])
    once_item none field i used vs h = once_new "" used _ _ fresh.0 (h (suc i) used)
    once_item (some item) field i used vs h =
        once_resolved (id_in (lookup field item)) used _ i _ refl (h (suc i) _)

    resolve_ids_once :
        (field : String) (i : ℕ) (used : List String) (vs : List Value)
        → AreOwnedOnce owned used (resolve_ids new field owned key i used vs)
    unfolding resolve_ids
    resolve_ids_once field i used [] = tt
    resolve_ids_once field i used (v ∷ vs) =
        once_item (as_patch (some v)) field i used vs
          (λ i' used'. resolve_ids_once field i' used' vs)

  allowed_resolved :
      (new : Option (String → ℕ → String)) (key id : String) (used : List String) (i : ℕ) (b : Bool)
      → is_reused owned used id ≡ b
      → (mem_text (if b then id else new_or_empty new key i) owned
          || (if b then id else new_or_empty new key i) == ""
          || (if b then id else new_or_empty new key i) == new_or_empty new key i)
        ≡ true
  unfolding is_reused
  allowed_resolved new key id used i true e =
      let (m, u) = reused_bools (id == "") (mem_text id owned) _ e in ground (arith, m)
  allowed_resolved new key id used i false e = ground (arith, eq_refl (new_or_empty new key i))

  allowed_item :
      (new : Option (String → ℕ → String)) (key : String) (o : Option Data) (field : String) (i : ℕ)
      (used : List String) (vs : List Value)
      → ((i' : ℕ) (used' : List String)
          → AreAllowed new key owned i' (resolve_ids new field owned key i' used' vs))
      → AreAllowed new key owned i (elim o [
        | none ↦ "" ∷ resolve_ids new field owned key (suc i) used vs
        | some item ↦
            resolve_id new owned used key i (id_in (lookup field item))
            ∷ resolve_ids new field owned key
                (suc i)
                (now_used owned used (id_in (lookup field item)))
                vs
      ])
  allowed_item new key none field i used vs h = (ground (arith), h (suc i) used)
  allowed_item new key (some item) field i used vs h =
      (allowed_resolved new key (id_in (lookup field item)) used i _ refl, h (suc i) _)

  resolve_ids_allowed :
      (new : Option (String → ℕ → String)) (key field : String) (i : ℕ) (used : List String)
      (vs : List Value)
      → AreAllowed new key owned i (resolve_ids new field owned key i used vs)
  unfolding resolve_ids
  resolve_ids_allowed new key field i used [] = tt
  resolve_ids_allowed new key field i used (v ∷ vs) =
      allowed_item new key (as_patch (some v)) field i used vs
        (λ i' used'. resolve_ids_allowed new key field i' used' vs)

  -- Each resolved id is one of the parent's, the new id of its position, or empty; and no id of the
  -- parent stands there twice, if neither the empty text nor a new id is one of the parent's.
  pub resolve_ids_sound :
      (new : Option (String → ℕ → String)) (key field : String) (vs : List Value)
      → AreFresh new key
      → AreAllowed new key owned 0 (resolve_ids new field owned key 0 [] vs)
        × AreOwnedOnce owned [] (resolve_ids new field owned key 0 [] vs)
  resolve_ids_sound new key field vs fresh =
      (resolve_ids_allowed new key field 0 [] vs, resolve_ids_once new key fresh field 0 [] vs)
