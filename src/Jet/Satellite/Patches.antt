-- ===== src/Jet/Satellite/Patches.antt =====
-- What one key of a patch does to the columns.
use editrig_go.Base.{
  ◌≡◌, refl, Bool, true, false, not, ◌&&◌, List, [], ◌∷◌, String, ◌==◌, if◌then◌else◌, eq_iff,
}
use editrig_go.Jet.Satellite.{KeyedColumnWrite, is_present, text_at, to_clear, to_set}

-- The given writes, parted in order into those that clear their column under the key, those that
-- set it, and those whose patch lacks the key.
pub data IsParted (key : String)
    : List KeyedColumnWrite → List KeyedColumnWrite → List KeyedColumnWrite → Type 0 where
  no_writes : IsParted key [] [] []
  lacks :
      {w : KeyedColumnWrite} {ws cleared stored : List KeyedColumnWrite}
      → is_present key w ≡ false
      → IsParted key ws cleared stored
      → IsParted key (w ∷ ws) cleared stored
  clears :
      {w : KeyedColumnWrite} {ws cleared stored : List KeyedColumnWrite}
      → is_present key w ≡ true
      → text_at key w ≡ ""
      → IsParted key ws cleared stored
      → IsParted key (w ∷ ws) (w ∷ cleared) stored
  stores :
      {w : KeyedColumnWrite} {ws cleared stored : List KeyedColumnWrite}
      → is_present key w ≡ true
      → (text_at key w == "") ≡ false
      → IsParted key ws cleared stored
      → IsParted key (w ∷ ws) cleared (w ∷ stored)

part_one :
    (key : String) (w : KeyedColumnWrite) (p e : Bool) (ws cleared stored : List KeyedColumnWrite)
    → is_present key w ≡ p
    → (text_at key w == "") ≡ e
    → IsParted key ws cleared stored
    → IsParted key
        (w ∷ ws)
        (if p && e then w ∷ cleared else cleared)
        (if p && not e then w ∷ stored else stored)
part_one key w true true ws cleared stored h k a = clears h ((eq_iff (text_at key w) "").0 k) a
part_one key w true false ws cleared stored h k a = stores h k a
part_one key w false e ws cleared stored h k a = lacks h a

-- For one key, each of the given writes is, in order and unchanged, among those that clear their
-- column, if its patch has the key with null, the empty text or no text; among those that set it, if
-- the patch has another text there; and in neither list if the patch lacks the key.
pub to_set-to_clear :
    (key : String) (ws : List KeyedColumnWrite) → IsParted key ws (to_clear key ws) (to_set key ws)
unfolding to_clear to_set
to_set-to_clear key [] = no_writes
to_set-to_clear key (w ∷ ws) = part_one key w _ _ ws _ _ refl refl (to_set-to_clear key ws)
