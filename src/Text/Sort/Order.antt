-- ===== src/Text/Sort/Order.antt =====
-- The order of `sort.Strings` on texts is total.
use Prim.Native.Char.{Char, code}
use Prim.Native.Nat.{compare as compare_ℕ, Ordering}
use Prim.Native.String.compare
use Prim.Native.String.{[], ◌∷◌}
use text.Mathlib.TextEquality.{codes_equal}
use editrig_go.Base.{◌≡◌, refl, ap₂, true, false, arith, ltb, nat_eq, if◌then◌else◌, String}
use editrig_go.Text.Sort.{text_leb}

-- One step of the comparison.
text_leb_cons :
    (c d : Char) (s t : String)
    → text_leb (c ∷ s) (d ∷ t) ≡ (
        if ltb (code c) (code d)
        then true
        else if nat_eq (code c) (code d)
        then text_leb s t
        else false)
text_leb_cons c d s t = rw (compare.cons-cons c d s t) (ground arith)

pub text_leb-total : (s t : String) → text_leb s t ≡ false → text_leb t s ≡ true
text_leb-total [] [] h = refl
text_leb-total [] (d ∷ t) h = cc (rw compare.nil-cons at h)
text_leb-total (c ∷ s) [] h = rw compare.nil-cons
text_leb-total (c ∷ s) (d ∷ t) h =
    ground (arith, text_leb_cons c d s t, text_leb_cons d c t s, text_leb-total s t)

pub text_leb_trans :
    (s t u : String) → text_leb s t ≡ true → text_leb t u ≡ true → text_leb s u ≡ true
text_leb_trans [] t [] h k = refl
text_leb_trans [] t (e ∷ u) h k = rw compare.nil-cons
text_leb_trans (c ∷ s) [] u h k = cc (rw compare.cons-nil at h)
text_leb_trans (c ∷ s) (d ∷ t) [] h k = cc (rw compare.cons-nil at k)
text_leb_trans (c ∷ s) (d ∷ t) (e ∷ u) h k = ground (
  arith,
  text_leb_cons c d s t,
  text_leb_cons d e t u,
  text_leb_cons c e s u,
  text_leb_trans s t u,
)

both_le :
    (c d : Char) (s t : String)
    → text_leb (c ∷ s) (d ∷ t) ≡ true
    → text_leb (d ∷ t) (c ∷ s) ≡ true
    → (compare_ℕ (code c) (code d) ≡ Ordering.eq) × (text_leb s t ≡ true) × (text_leb t s ≡ true)
both_le c d s t h k = (
  ground (arith, text_leb_cons c d s t, text_leb_cons d c t s),
  ground (arith, text_leb_cons c d s t, text_leb_cons d c t s),
  ground (arith, text_leb_cons c d s t, text_leb_cons d c t s),
)

pub text_leb_antisymm : (s t : String) → text_leb s t ≡ true → text_leb t s ≡ true → s ≡ t
text_leb_antisymm [] [] h k = refl
text_leb_antisymm [] (d ∷ t) h k = cc (rw compare.cons-nil at k)
text_leb_antisymm (c ∷ s) [] h k = cc (rw compare.cons-nil at h)
text_leb_antisymm (c ∷ s) (d ∷ t) h k =
    let (same, le, ge) = both_le c d s t h k in
    ap₂ (λ (x : Char) (y : String). x ∷ y) (codes_equal c d same) (text_leb_antisymm s t le ge)
