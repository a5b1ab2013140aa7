-- ===== src/Text/Decimal/Laws.antt =====
-- `itoa` prints a number that its digits give back, so two numbers have two texts.
use Prim.Native.Char.{code}
use Prim.Native.String.{[], ◌∷◌}
use editrig_go.Base.{
  ℕ, zero, suc, ◌+◌, ◌*◌, ◌/◌, ◌%◌, ◌<◌, ◌≡◌, refl, ap, sym, ◌∙◌, Bool, true, false, ◌&&◌, none,
  some, some_inj, String, leb, ltb, if◌then◌else◌, arith,
}
use text.Mathlib.TextLemmas.{nil-append, cons-append}
use editrig_go.Text.{◌+++◌}
use editrig_go.Text.Decimal.{digit, itoa_from, itoa, digits_value}

-- One digit more.
digits_value-digit : (acc d : ℕ) → d < 10 → digits_value acc (digit d) ≡ some (acc * 10 + d)
unfolding digits_value
digits_value-digit acc zero h = ap some (omega arith)
digits_value-digit acc (suc zero) h = ap some (omega arith)
digits_value-digit acc (suc (suc zero)) h = ap some (omega arith)
digits_value-digit acc (suc (suc (suc zero))) h = ap some (omega arith)
digits_value-digit acc (suc (suc (suc (suc zero)))) h = ap some (omega arith)
digits_value-digit acc (suc (suc (suc (suc (suc zero))))) h = ap some (omega arith)
digits_value-digit acc (suc (suc (suc (suc (suc (suc zero)))))) h = ap some (omega arith)
digits_value-digit acc (suc (suc (suc (suc (suc (suc (suc zero))))))) h = ap some (omega arith)
digits_value-digit acc (suc (suc (suc (suc (suc (suc (suc (suc zero)))))))) h =
    ap some (omega arith)
digits_value-digit acc (suc (suc (suc (suc (suc (suc (suc (suc (suc zero))))))))) h =
    ap some (omega arith)
digits_value-digit acc (suc (suc (suc (suc (suc (suc (suc (suc (suc (suc d)))))))))) h =
    absurd (omega arith)

then_digit :
    (b : Bool) (acc d : ℕ) (s : String) (value : ℕ)
    → (if b then digits_value acc s else none) ≡ some value
    → (digits_value acc s ≡ some value → digits_value acc (s +++ digit d) ≡ some (value * 10 + d))
    → (if b then digits_value acc (s +++ digit d) else none) ≡ some (value * 10 + d)
then_digit true acc d s value e h = h e
then_digit false acc d s value e h = absurd (cc)

digits_value-append :
    (s : String) (acc d value : ℕ)
    → d < 10
    → digits_value acc s ≡ some value
    → digits_value acc (s +++ digit d) ≡ some (value * 10 + d)
unfolding digits_value
digits_value-append [] acc d value h e =
    ap (digits_value acc) (nil-append (digit d))
    ∙ digits_value-digit acc d h
    ∙ ap (λ n. some (n * 10 + d)) (some_inj e)
digits_value-append (c ∷ s) acc d value h e =
    ap (digits_value acc) (cons-append c s (digit d))
    ∙ then_digit (leb b'0' (code c) && leb (code c) b'9') _ d s value e
        (digits_value-append s _ d value h)

itoa_step :
    (b : Bool) (n : ℕ) (front : String)
    → ltb n 10 ≡ b
    → (ltb n 10 ≡ false → digits_value 0 front ≡ some (n / 10))
    → digits_value 0 (if b then digit n else (front +++ digit (n % 10))) ≡ some n
itoa_step true n front e h = digits_value-digit 0 n (ground (arith, e)) ∙ ap some (omega arith)
itoa_step false n front e h =
    digits_value-append front 0 (n % 10) (n / 10) (omega arith) (h e) ∙ ap some (omega arith)

digits_value-itoa_from : (fuel n : ℕ) → n < fuel → digits_value 0 (itoa_from fuel n) ≡ some n
unfolding itoa_from
digits_value-itoa_from zero n h = absurd (omega arith)
digits_value-itoa_from (suc fuel) n h =
    itoa_step _ n _ refl λ e. digits_value-itoa_from fuel (n / 10) (ground (arith, e, h))

-- The digits of a printed number are the number.
pub digits_value-itoa : (n : ℕ) → digits_value 0 (itoa n) ≡ some n
unfolding itoa
digits_value-itoa n = digits_value-itoa_from (suc n) n (omega arith)

pub itoa_inj : (m n : ℕ) → itoa m ≡ itoa n → m ≡ n
itoa_inj m n e = some_inj (sym (digits_value-itoa m) ∙ ap (digits_value 0) e ∙ digits_value-itoa n)
