-- ===== src/Validate/Unknown/Pointer.antt =====
-- The escaping of a JSON pointer token, against the decoding of `uploadArraySchema`.
use Prim.Native.Char.{Char, code}
use Prim.Native.String.{[], ◌∷◌}
use text.Mathlib.TextLemmas.{nil-append, cons-append}
use text.Mathlib.TextEquality.{codes_equal}
use editrig_go.Base.{
  ℕ, ◌≡◌, refl, ap, ap₂, sym, ◌∙◌, true, false, Bool-cases, inl, inr, arith, String, nat_eq,
}
use editrig_go.Text.{replace_byte, replace_pair, ◌+++◌}
use editrig_go.Validate.Unknown.{pointer_token}
use editrig_go.Validate.Widen.{decode_token}

abbrev tilde : Char
tilde = "~"

abbrev slash : Char
slash = "/"

abbrev digit_zero : Char
digit_zero = "0"

abbrev digit_one : Char
digit_one = "1"

-- A text of two characters in front of another.
append_pair : (c d : Char) (s : String) → (c ∷ (d ∷ [])) +++ s ≡ c ∷ (d ∷ s)
append_pair c d s =
    cons-append c (d ∷ []) s
    ∙ ap (λ (t : String). c ∷ t) (cons-append d [] s ∙ ap (λ (t : String). d ∷ t) (nil-append s))

append_one : (c : Char) (s : String) → (c ∷ []) +++ s ≡ c ∷ s
append_one c s = cons-append c [] s ∙ ap (λ (t : String). c ∷ t) (nil-append s)

char_of_code : (c d : Char) → nat_eq (code c) (code d) ≡ true → c ≡ d
char_of_code c d h = codes_equal c d (ground arith)

-- A character that begins no pair is copied.
replace_pair-cons :
    (a b : ℕ) (new : String) (c : Char) (s : String)
    → nat_eq (code c) a ≡ false
    → replace_pair a b new (c ∷ s) ≡ c ∷ replace_pair a b new s
unfolding replace_pair
replace_pair-cons a b new c [] h = refl
replace_pair-cons a b new c (d ∷ s) h = rw h refl

-- The text with "~" escaped only: what is left after the first of the two replacements is undone.
abbrev half_escaped : String → String
half_escaped s = replace_byte b'~' "~0" s

half_escaped-cons_tilde :
    (c : Char) (s : String)
    → nat_eq (code c) b'~' ≡ true
    → half_escaped (c ∷ s) ≡ tilde ∷ (digit_zero ∷ half_escaped s)
unfolding replace_byte
half_escaped-cons_tilde c s h = rw h (append_pair tilde digit_zero (half_escaped s))

half_escaped-cons :
    (c : Char) (s : String)
    → nat_eq (code c) b'~' ≡ false
    → half_escaped (c ∷ s) ≡ c ∷ half_escaped s
unfolding replace_byte
half_escaped-cons c s h = rw h

unescape_tilde : (s : String) → replace_pair b'~' b'0' "~" (half_escaped s) ≡ s
unfolding replace_byte replace_pair
unescape_tilde [] = refl
unescape_tilde (c ∷ s) = elim (Bool-cases (nat_eq (code c) b'~')) [
  | inl h ↦
      ap (replace_pair b'~' b'0' "~") (half_escaped-cons_tilde c s h)
      ∙ append_one tilde (replace_pair b'~' b'0' "~" (half_escaped s))
      ∙ ap₂ (λ (x : Char) (y : String). x ∷ y) (sym (char_of_code c tilde h)) (unescape_tilde s)
  | inr h ↦
      ap (replace_pair b'~' b'0' "~") (half_escaped-cons c s h)
      ∙ replace_pair-cons b'~' b'0' "~" c (half_escaped s) h
      ∙ ap (λ (t : String). c ∷ t) (unescape_tilde s)
]

abbrev undo_slash : String → String
undo_slash s = replace_pair b'~' b'1' "/" s

undo_slash_step :
    (s : String) → undo_slash (tilde ∷ (digit_zero ∷ s)) ≡ tilde ∷ undo_slash (digit_zero ∷ s)
unfolding replace_pair
undo_slash_step s = refl

undo_slash_skip :
    (s : String) → undo_slash (tilde ∷ (digit_zero ∷ s)) ≡ tilde ∷ (digit_zero ∷ undo_slash s)
undo_slash_skip s =
    undo_slash_step s
    ∙ ap (λ (t : String). tilde ∷ t) (replace_pair-cons b'~' b'1' "/" digit_zero s refl)

undo_slash_hit : (s : String) → undo_slash (tilde ∷ (digit_one ∷ s)) ≡ slash ∷ undo_slash s
unfolding replace_pair
undo_slash_hit s = append_one slash (undo_slash s)

-- "~1" is turned back into "/", and no other pair is.
unescape_slash : (s : String) → replace_pair b'~' b'1' "/" (pointer_token s) ≡ half_escaped s
unfolding pointer_token replace_byte
unescape_slash [] = unfold replace_byte replace_pair in refl
unescape_slash (c ∷ s) = elim (Bool-cases (nat_eq (code c) b'~')) [
  | inl h ↦ rw (half_escaped-cons_tilde c s h) (
      undo_slash_skip (pointer_token s)
      ∙ ap (λ (t : String). tilde ∷ (digit_zero ∷ t)) (unescape_slash s))
  | inr h ↦ elim (Bool-cases (nat_eq (code c) b'/')) [
    | inl k ↦
        rw (half_escaped-cons c s h, k)
          (ap undo_slash (append_pair tilde digit_one (pointer_token s))
            ∙ undo_slash_hit (pointer_token s)
            ∙ ap₂ (λ (x : Char) (y : String). x ∷ y) (sym (char_of_code c slash k))
                (unescape_slash s))
    | inr k ↦
        rw (half_escaped-cons c s h, k)
          (replace_pair-cons b'~' b'1' "/" c (pointer_token s) h
            ∙ ap (λ (t : String). c ∷ t) (unescape_slash s))
  ]
]

-- Decoding an escaped key gives the key back.
pub decode_token-pointer_token : (s : String) → decode_token (pointer_token s) ≡ s
unfolding decode_token
decode_token-pointer_token s = ap (replace_pair b'~' b'0' "~") (unescape_slash s) ∙ unescape_tilde s
