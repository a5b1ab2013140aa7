-- ===== src/Text/Decimal.antt =====
-- `strconv.Itoa` on counts, and `strconv.Atoi`.
pub mod Laws
use Prim.Native.Char.{code}
use Prim.Native.String
use Prim.Native.String.{[], ◌∷◌}
use editrig_go.Base.{
  ℕ, zero, suc, ◌+◌, ◌*◌, ◌-◌, ◌/◌, ◌%◌, ◌^◌, ◌≡◌, refl, ◌&&◌, Option, none, some, leb, ltb, nat_eq,
  if◌then◌else◌, String,
}

abbrev pub digit : ℕ → String
digit zero = "0"
digit (suc zero) = "1"
digit (suc (suc zero)) = "2"
digit (suc (suc (suc zero))) = "3"
digit (suc (suc (suc (suc zero)))) = "4"
digit (suc (suc (suc (suc (suc zero))))) = "5"
digit (suc (suc (suc (suc (suc (suc zero)))))) = "6"
digit (suc (suc (suc (suc (suc (suc (suc zero))))))) = "7"
digit (suc (suc (suc (suc (suc (suc (suc (suc zero)))))))) = "8"
digit _ = "9"

-- The fuel bounds the number of digits; a number has fewer digits than its successor counts.
unfoldable pub itoa_from : ℕ → ℕ → String
itoa_from zero n = ""
itoa_from (suc fuel) n =
    let front = itoa_from fuel (n / 10) in
    if ltb n 10 then digit n else String.◌++◌ front (digit (n % 10))

unfoldable pub itoa : ℕ → String
unfolding itoa_from
itoa n = itoa_from (suc n) n

-- The decimal digits, most significant first.
unfoldable pub digits_value : ℕ → String → Option ℕ
digits_value acc [] = some acc
digits_value acc (c ∷ s) =
    let rest = digits_value (acc * 10 + (code c - b'0')) s in
    if leb b'0' (code c) && leb (code c) b'9' then rest else none

-- A signed machine integer as `Atoi` returns it, where only the sign and the size matter.
pub data Parsed : Type 0 where
  bad : Parsed
  negative : ℕ → Parsed
  natural : ℕ → Parsed

unfoldable pub unsigned : String → Option ℕ
unfolding digits_value
unsigned [] = none
unsigned (c ∷ s) = digits_value 0 (c ∷ s)

abbrev above_zero : Option ℕ → Parsed
above_zero none = bad
above_zero (some n) = if ltb n (2 ^ 63) then natural n else bad

abbrev below_zero : Option ℕ → Parsed
below_zero none = bad
below_zero (some n) = if leb n (2 ^ 63) then negative n else bad

-- `strconv.Atoi` with a 64-bit `int`: a sign, then digits; out of range is an error.
unfoldable pub atoi : String → Parsed
unfolding unsigned
atoi [] = bad
atoi (c ∷ s) =
    if nat_eq (code c) b'-'
    then below_zero (unsigned s)
    else if nat_eq (code c) b'+'
    then above_zero (unsigned s)
    else above_zero (unsigned (c ∷ s))

itoa_runs : itoa 1204 ≡ "1204"
unfolding itoa
itoa_runs = refl

atoi_runs : atoi "9223372036854775808" ≡ bad
unfolding atoi
atoi_runs = refl
