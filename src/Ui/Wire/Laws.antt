-- ===== src/Ui/Wire/Laws.antt =====
-- When two wire shapes match.
use editrig_go.Base.{◌≡◌, ◌↔◌, ◌⊎◌, true, arith, eq_iff}
use editrig_go.Ui.Wire.{Wire, matches, kind_any}

-- Two shapes match exactly if one of the kinds is "any", or the kinds are equal and one of the
-- element kinds is "any" or these are equal too.
pub matches_iff :
    (w v : Wire)
    → (matches w v ≡ true) ↔ (
        (w.kind ≡ kind_any)
        ⊎ (v.kind ≡ kind_any)
        ⊎ ((w.kind ≡ v.kind) × ((w.elem ≡ kind_any) ⊎ (v.elem ≡ kind_any) ⊎ (w.elem ≡ v.elem))))
unfolding matches
matches_iff w v = (
  λ h. ground (
    arith,
    eq_iff w.kind kind_any,
    eq_iff v.kind kind_any,
    eq_iff w.kind v.kind,
    eq_iff w.elem kind_any,
    eq_iff v.elem kind_any,
    eq_iff w.elem v.elem,
  ),
  λ h. ground (
    arith,
    eq_iff w.kind kind_any,
    eq_iff v.kind kind_any,
    eq_iff w.kind v.kind,
    eq_iff w.elem kind_any,
    eq_iff v.elem kind_any,
    eq_iff w.elem v.elem,
  ),
)
