-- ===== src/Validate/Markers/Fresh.antt =====
-- The search for a fresh marker text has enough fuel.
use Prim.Native.String.{[] as ε}
use text.Mathlib.TextLemmas.{append_cancel_left, append-nil, append-eq-nil_iff}
use editrig_go.Base.{
  ℕ, zero, suc, ◌≤◌, ◌<◌, ◌≡◌, ◌≢◌, refl, ap, sym, ◌∙◌, subst, Bool, true, false, ◌||◌, ◌&&◌, none,
  some, List, [], ◌∷◌, String, ◌==◌, eq_iff, eq-false_of_ne, if◌then◌else◌, length, arith, nat_eq,
}
use editrig_go.Text.Decimal.Laws.{itoa_inj}
use editrig_go.Map.{lookup}
use editrig_go.Json.{
  Value, null, bool, num, str, arr, obj, upload, typed, opaque, end, member, members,
}
use editrig_go.Validate.Markers.{
  deep_equal, marker_in, marker_of, plain_text, suffixed_text, fresh_from, fresh_text,
}

text_equal :
    (w : Value) (t u : String) → deep_equal w (str t) ≡ true → deep_equal w (str u) ≡ (t == u)
unfolding deep_equal
text_equal (str s) t u h = ground (arith, eq_iff s t, eq_iff s u, eq_iff t u)
text_equal null t u h = absurd (cc)
text_equal (bool b) t u h = absurd (cc)
text_equal (num n) t u h = absurd (cc)
text_equal (arr a) t u h = absurd (cc)
text_equal (obj o) t u h = absurd (cc)
text_equal (upload x) t u h = absurd (cc)
text_equal (typed o) t u h = absurd (cc)
text_equal opaque t u h = absurd (cc)

and_true : (b : Bool) → (b && true) ≡ b
and_true true = refl
and_true false = refl

both_true : (a b : Bool) → (a && b) ≡ true → a ≡ true
both_true true b h = refl
both_true false b h = absurd (cc)

-- A value that equals one marker equals no other.
member_equal :
    (b : Bool) (w : Value) (t u : String)
    → (elim (if b then some (str t) else none) [ none ↦ false | some x ↦ deep_equal w x ] && true)
      ≡ true
    → (elim (if b then some (str u) else none) [ none ↦ false | some x ↦ deep_equal w x ] && true)
      ≡ (t == u)
member_equal true w t u h = and_true _ ∙ text_equal w t u (sym (and_true _) ∙ h)
member_equal false w t u h = absurd (cc)

marker_equal :
    (v : Value) (t u : String)
    → deep_equal v (marker_of t) ≡ true
    → deep_equal v (marker_of u) ≡ (t == u)
unfolding deep_equal lookup
marker_equal (obj end) t u h = absurd (ground (arith, h))
marker_equal (obj (member k w end)) t u h = member_equal ("$editrigUpload" == k) w t u h
marker_equal (obj (member k w (member l x ms))) t u h =
    let two = both_true (nat_eq (suc (suc (length (members ms)))) 1) _ h in
    absurd (ground (arith, two))
marker_equal null t u h = absurd (cc)
marker_equal (bool b) t u h = absurd (cc)
marker_equal (num n) t u h = absurd (cc)
marker_equal (str s) t u h = absurd (cc)
marker_equal (arr a) t u h = absurd (cc)
marker_equal (upload x) t u h = absurd (cc)
marker_equal (typed o) t u h = absurd (cc)
marker_equal opaque t u h = absurd (cc)

-- The texts that are tried, in their order.
tried : String → ℕ → ℕ → String
tried name i zero = plain_text name i
tried name i (suc k) = suffixed_text name i k

tried_apart : (name : String) (i j k : ℕ) → j < k → tried name i j ≢ tried name i k
unfolding tried suffixed_text
tried_apart name i zero zero h e = absurd (omega arith)
tried_apart name i zero (suc k) h e =
    let rest = append_cancel_left (plain_text name i) ε _ (append-nil _ ∙ e) in
    let slash = ((append-eq-nil_iff {p = "/"}).0 (sym rest)).0 in absurd (cc)
tried_apart name i (suc j) zero h e = absurd (omega arith)
tried_apart name i (suc j) (suc k) h e =
    let rest = append_cancel_left (plain_text name i) _ _ e in
    let same = itoa_inj j k (append_cancel_left "/" _ _ rest) in absurd (omega arith)

tried_differ : (name : String) (i j k : ℕ) → j < k → (tried name i j == tried name i k) ≡ false
tried_differ name i j k h = eq-false_of_ne _ _ (tried_apart name i j k h)

-- The values that the marker of a text does not equal.
without : String → List Value → List Value
without t [] = []
without t (v ∷ vs) =
    let rest = without t vs in if deep_equal v (marker_of t) then rest else v ∷ rest

without-le : (t : String) (vs : List Value) → length (without t vs) ≤ length vs
unfolding without
without-le t [] = omega arith
without-le t (v ∷ vs) = ground (arith, without-le t vs)

length-without :
    (t : String) (vs : List Value)
    → marker_in vs (marker_of t) ≡ true
    → length (without t vs) < length vs
unfolding without marker_in
length-without t [] h = absurd (cc)
length-without t (v ∷ vs) h = ground (arith, h, without-le t vs, length-without t vs)

marker_in_if :
    (b : Bool) (v : Value) (t u : String) (vs : List Value)
    → deep_equal v (marker_of t) ≡ b
    → (t == u) ≡ false
    → marker_in (without t vs) (marker_of u) ≡ marker_in vs (marker_of u)
    → marker_in (if b then without t vs else v ∷ without t vs) (marker_of u)
      ≡ (deep_equal v (marker_of u) || marker_in vs (marker_of u))
unfolding marker_in
marker_in_if true v t u vs e n h =
    h ∙ sym (ap (λ b. b || marker_in vs (marker_of u)) (marker_equal v t u e ∙ n))
marker_in_if false v t u vs e n h = ap (deep_equal v (marker_of u) ||◌) h

marker_in-without :
    (t u : String) (vs : List Value)
    → (t == u) ≡ false
    → marker_in (without t vs) (marker_of u) ≡ marker_in vs (marker_of u)
unfolding without marker_in
marker_in-without t u [] n = refl
marker_in-without t u (v ∷ vs) n = marker_in_if _ v t u vs refl n (marker_in-without t u vs n)

module _ (existing : List Value) (name : String) (i : ℕ) where
  -- `vs` are the existing values that a text from the `k`-th on may still meet.
  Left : ℕ → List Value → Type 0
  Left k vs =
      (j : ℕ)
      → k ≤ j
      → marker_in existing (marker_of (tried name i j)) ≡ marker_in vs (marker_of (tried name i j))

  fresh_if :
      (b : Bool) (fuel : ℕ) (text next : String)
      → marker_in existing (marker_of text) ≡ b
      → (marker_in existing (marker_of text) ≡ true → marker_in existing (marker_of next) ≡ false)
      → marker_in existing (marker_of (if b then next else text)) ≡ false
  fresh_if true fuel text next e h = h e
  fresh_if false fuel text next e h = e

  fresh_from_enough :
      (fuel k : ℕ) (vs : List Value)
      → length vs ≤ fuel
      → Left k vs
      → marker_in existing (marker_of (fresh_from fuel existing name i k (tried name i k))) ≡ false
  unfolding fresh_from Left marker_in suffixed_text tried
  fresh_from_enough zero k [] h l = l k (omega arith)
  fresh_from_enough zero k (v ∷ vs) h l = absurd (omega arith)
  fresh_from_enough (suc fuel) k vs h l = fresh_if _ fuel (tried name i k) _ refl λ e.
      subst
        (λ (m : ℕ).
          marker_in existing
            (marker_of (fresh_from fuel existing name i m (suffixed_text name i k)))
          ≡ false)
        (omega arith)
        (fresh_from_enough fuel (suc k) (without (tried name i k) vs)
          (ground (arith, h, length-without (tried name i k) vs (sym (l k (omega arith)) ∙ e)))
          (λ j g.
            l j (omega arith)
            ∙ sym (
                marker_in-without (tried name i k) (tried name i j) vs
                  (tried_differ name i k j (omega arith)))))

-- The search for a marker always finds a text whose marker equals no value that was submitted: its
-- fuel, the number of these values, is enough.
pub fresh_text-marker_in :
    (existing : List Value) (name : String) (i : ℕ)
    → marker_in existing (marker_of (fresh_text existing name i)) ≡ false
unfolding fresh_text tried Left
fresh_text-marker_in existing name i =
    fresh_from_enough existing name i (length existing) 0 existing (omega arith) (λ j g. refl)
