-- ===== src/Config/Laws.antt =====
-- The limits and the policy of every handler that the options can build.
use editrig_go.Base.{
  ℕ, suc, ◌<◌, ◌≡◌, refl, Bool, true, false, ◌||◌, ◌⊎◌, inl, inr, Option, none, some, arith, String,
  ◌==◌, eq_iff, ◌↔◌, subst, Bool-cases, Option-cases,
}
use editrig_go.Validate.Unknown.{allow_unknown_fields, reject_unknown_fields, strip_unknown_fields}
use editrig_go.Config.{
  ℤ, pos, negsuc, is_negative, or_default, to_ℕ, BodyLimits, defaults, Settings, HandlerOption,
  with_unknown_fields, with_body_limits, upload_max_bytes, json_bytes_default,
  multipart_memory_default,
}

abbrev pub IsPositive : ℤ → Type 0
IsPositive i = (is_negative i ≡ false) × (0 < to_ℕ i)

-- Every limit is at least one byte.
abbrev pub IsLimited : BodyLimits → Type 0
IsLimited b = IsPositive b.json_bytes × IsPositive b.multipart_bytes × IsPositive b.multipart_memory

or_default-IsPositive :
    (i : ℤ) (n : ℕ) → is_negative i ≡ false → 0 < n → IsPositive (or_default i n)
or_default-IsPositive (pos Prim.Native.Nat.ℕ.zero) n h k = (refl, k)
or_default-IsPositive (pos (suc m)) n h k = (refl, omega arith)
or_default-IsPositive (negsuc m) n h k = cc

or_default_of_IsPositive : (i : ℤ) (n : ℕ) → IsPositive i → or_default i n ≡ i
or_default_of_IsPositive (pos Prim.Native.Nat.ℕ.zero) n h = absurd (omega arith)
or_default_of_IsPositive (pos (suc m)) n h = refl
or_default_of_IsPositive (negsuc m) n h = refl

pub defaults_of_IsLimited : (b : BodyLimits) → IsLimited b → defaults b ≡ some b
unfolding defaults
defaults_of_IsLimited b (j, p, m) = ground (
  arith,
  or_default_of_IsPositive b.json_bytes json_bytes_default j,
  or_default_of_IsPositive b.multipart_bytes upload_max_bytes p,
  or_default_of_IsPositive b.multipart_memory multipart_memory_default m,
)

pub defaults-IsLimited : (b full : BodyLimits) → defaults b ≡ some full → IsLimited full
unfolding defaults
defaults-IsLimited b full h = ground (
  arith,
  or_default-IsPositive b.json_bytes json_bytes_default,
  or_default-IsPositive b.multipart_bytes upload_max_bytes,
  or_default-IsPositive b.multipart_memory multipart_memory_default,
)

abbrev pub has_negative : BodyLimits → Bool
has_negative b =
    is_negative b.json_bytes || is_negative b.multipart_bytes || is_negative b.multipart_memory

-- Filling in the defaults panics exactly if a limit is negative; a result has only positive limits,
-- and filling it in again changes nothing.
pub defaults_exact :
    (b : BodyLimits)
    → ((defaults b ≡ none) ↔ (has_negative b ≡ true))
      × ((full : BodyLimits)
          → defaults b ≡ some full
          → IsLimited full × (defaults full ≡ some full))
unfolding defaults
defaults_exact b = (
  (λ h. ground arith, λ h. ground arith),
  λ full h. (defaults-IsLimited b full h, defaults_of_IsLimited full (defaults-IsLimited b full h)),
)

-- The settings that a handler may have: positive limits and one of the three policies.
pub record IsConfigured (h : Settings) : Type 0 where
  pub limited : IsLimited h.body_limits
  pub policy :
      (h.unknown_fields ≡ allow_unknown_fields)
      ⊎ (h.unknown_fields ≡ reject_unknown_fields)
      ⊎ (h.unknown_fields ≡ strip_unknown_fields)

abbrev is_policy : String → Bool
is_policy policy =
    policy == allow_unknown_fields
    || policy == reject_unknown_fields
    || policy == strip_unknown_fields

policy_cases :
    (policy : String)
    → is_policy policy ≡ true
    → (policy ≡ allow_unknown_fields)
      ⊎ (policy ≡ reject_unknown_fields)
      ⊎ (policy ≡ strip_unknown_fields)
policy_cases policy t = ground (
  arith,
  eq_iff policy allow_unknown_fields,
  eq_iff policy reject_unknown_fields,
  eq_iff policy strip_unknown_fields,
)

-- An option that one of the two constructors returned keeps a configured handler configured.
abbrev pub IsBuilt : HandlerOption → Type 0
IsBuilt f =
    ((policy : String) × (with_unknown_fields policy ≡ some f))
    ⊎ ((limits : BodyLimits) × (with_body_limits limits ≡ some f))

abbrev apply_built : Option HandlerOption → Settings → Settings
apply_built none h = h
apply_built (some f) h = f h

policy_of_built :
    (policy : String) (h : Settings)
    → IsConfigured h
    → IsConfigured (apply_built (with_unknown_fields policy) h)
unfolding with_unknown_fields
policy_of_built policy h c = elim (Bool-cases (is_policy policy)) [
  | inl t ↦ rw t (record { limited = c.limited; policy = policy_cases policy t })
  | inr t ↦ rw t c
]

limits_of_built :
    (limits : BodyLimits) (h : Settings)
    → IsConfigured h
    → IsConfigured (apply_built (with_body_limits limits) h)
unfolding with_body_limits
limits_of_built limits h c = elim (Option-cases (defaults limits)) [
  | inl e ↦ rw (e, apply_built, with_body_limits) c
  | inr (full, e) ↦
      rw (e, apply_built, with_body_limits)
        (record { limited = defaults-IsLimited limits full e; policy = c.policy })
]

pub IsBuilt-IsConfigured :
    (f : HandlerOption) (h : Settings) → IsBuilt f → IsConfigured h → IsConfigured (f h)
IsBuilt-IsConfigured f h (inl (policy, b)) c =
    subst (λ o. IsConfigured (apply_built o h)) b (policy_of_built policy h c)
IsBuilt-IsConfigured f h (inr (limits, b)) c =
    subst (λ o. IsConfigured (apply_built o h)) b (limits_of_built limits h c)
