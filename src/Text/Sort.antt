-- ===== src/Text/Sort.antt =====
-- `sort.Strings`: ascending by bytes. The result does not depend on the order of the input.
pub mod Order
pub mod Laws
use Prim.Native.String.{compare}
use text.Mathlib.Text.{is_le}
use editrig_go.Base.{Bool, List, [], ◌∷◌, if◌then◌else◌, String}

-- `s <= t`.
abbrev pub text_leb : String → String → Bool
text_leb s t = is_le (compare s t)

unfoldable pub insert_sorted : String → List String → List String
insert_sorted s [] = s ∷ []
insert_sorted s (t ∷ ts) =
    let rest = insert_sorted s ts in if text_leb s t then s ∷ t ∷ ts else t ∷ rest

unfoldable pub sort_strings : List String → List String
unfolding insert_sorted
sort_strings [] = []
sort_strings (s ∷ ss) = insert_sorted s (sort_strings ss)
