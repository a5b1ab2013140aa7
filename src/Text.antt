-- ===== src/Text.antt =====
-- The parts of Go's `strings` and `strconv` that the repository calls, over the native `String`,
-- whose comparison is that of the UTF-8 bytes. `Text.Sort` is `sort.Strings`.
pub mod Sort
pub mod Decimal
use Prim.Native.Char.{Char, code}
use Prim.Native.String.{[], ◌∷◌}
use Prim.Native.String
use text.Mathlib.Text.{starts_with}
use editrig_go.Base.{
  ℕ, ◌+◌, ◌≡◌, refl, Bool, true, false, ◌||◌, ◌&&◌, Option, none, some, List, [], ◌∷◌, leb, nat_eq,
  if◌then◌else◌, String, ◌==◌,
}

infixr 65 ◌+++◌
abbrev pub ◌+++◌ : String → String → String
s +++ t = String.◌++◌ s t

abbrev prepend : Char → List String → List String
prepend c [] = (c ∷ []) ∷ []
prepend c (part ∷ parts) = (c ∷ part) ∷ parts

-- `strings.Split(s, sep)` for a one-byte separator, given by its code point.
unfoldable pub split : ℕ → String → List String
split sep [] = [] ∷ []
split sep (c ∷ s) =
    let rest = split sep s in if nat_eq (code c) sep then [] ∷ rest else prepend c rest

-- `strings.Join`.
unfoldable pub join : String → List String → String
join sep [] = []
join sep (part ∷ []) = part
join sep (part ∷ rest) = part +++ sep +++ join sep rest

-- `strings.ReplaceAll(s, old, new)` for a one-byte `old`.
unfoldable pub replace_byte : ℕ → String → String → String
replace_byte old new [] = []
replace_byte old new (c ∷ s) =
    let rest = replace_byte old new s in if nat_eq (code c) old then new +++ rest else c ∷ rest

-- `strings.ReplaceAll(s, old, new)` for an `old` of two different bytes.
unfoldable pub replace_pair : ℕ → ℕ → String → String → String
replace_pair a b new [] = []
replace_pair a b new (c ∷ []) = c ∷ []
replace_pair a b new (c ∷ (d ∷ s)) =
    let skip = replace_pair a b new s in
    let step = replace_pair a b new (d ∷ s) in
    if nat_eq (code c) a && nat_eq (code d) b then new +++ skip else c ∷ step

-- `unicode.IsSpace`.
abbrev pub is_space : ℕ → Bool
is_space c =
    (leb 9 c && leb c 13)
    || nat_eq c 32
    || nat_eq c 0x85
    || nat_eq c 0xa0
    || nat_eq c 0x1680
    || (leb 0x2000 c && leb c 0x200a)
    || nat_eq c 0x2028
    || nat_eq c 0x2029
    || nat_eq c 0x202f
    || nat_eq c 0x205f
    || nat_eq c 0x3000

unfoldable pub trim_left : String → String
trim_left [] = []
trim_left (c ∷ s) = let rest = trim_left s in if is_space (code c) then rest else c ∷ s

unfoldable pub trim_right : String → String
trim_right [] = []
trim_right (c ∷ s) =
    let rest = trim_right s in if is_space (code c) && rest == "" then [] else c ∷ rest

-- `strings.TrimSpace`.
unfoldable pub trim_space : String → String
unfolding trim_left trim_right
trim_space s = trim_right (trim_left s)

-- `strings.HasPrefix`.
abbrev pub has_prefix : String → String → Bool
has_prefix s prefix = starts_with s prefix

-- `strings.EqualFold` of a text and a name in lower-case ASCII letters.
unfoldable pub equal_fold : String → String → Bool
equal_fold [] [] = true
equal_fold (c ∷ s) (d ∷ p) =
    (nat_eq (code c) (code d) || nat_eq (code c + 32) (code d)) && equal_fold s p
equal_fold s p = false

-- `strings.CutPrefix`; `none` where the prefix is missing.
unfoldable pub cut_prefix : String → String → Option String
cut_prefix s [] = some s
cut_prefix [] (d ∷ p) = none
cut_prefix (c ∷ s) (d ∷ p) =
    let rest = cut_prefix s p in if nat_eq (code c) (code d) then rest else none

split_ids : split b',' "a,,b" ≡ "a" ∷ "" ∷ "b" ∷ []
unfolding split
split_ids = refl

trim_both : trim_space "  x y\t" ≡ "x y"
unfolding trim_space
trim_both = refl

cut_file : cut_prefix "file:photo" "file:" ≡ some "photo"
unfolding cut_prefix
cut_file = refl
