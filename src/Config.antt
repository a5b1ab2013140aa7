-- ===== src/Config.antt =====
-- handler_config.go: body limits and the unknown-field policy. `none` is a panic.
pub mod Laws
use editrig_go.Base.{
  ℕ, zero, suc, ◌*◌, ◌^◌, Bool, true, false, ◌||◌, Option, none, some, String, ◌==◌, if◌then◌else◌,
}
use editrig_go.Validate.Unknown.{allow_unknown_fields, reject_unknown_fields, strip_unknown_fields}

-- An `int64`; `negsuc n` is -(n + 1).
pub data ℤ : Type 0 where
  pos : ℕ → ℤ
  negsuc : ℕ → ℤ

abbrev pub is_negative : ℤ → Bool
is_negative (pos n) = false
is_negative (negsuc n) = true

abbrev pub or_default : ℤ → ℕ → ℤ
or_default (pos zero) n = pos n
or_default i n = i

-- A limit that is known not to be negative.
abbrev pub to_ℕ : ℤ → ℕ
to_ℕ (pos n) = n
to_ℕ (negsuc n) = 0

pub record BodyLimits : Type 0 where
  pub json_bytes : ℤ
  pub multipart_bytes : ℤ
  pub multipart_memory : ℤ

abbrev pub upload_max_bytes : ℕ
upload_max_bytes = 128 * 2 ^ 20

abbrev pub multipart_memory_default : ℕ
multipart_memory_default = 4 * 2 ^ 20

abbrev pub json_bytes_default : ℕ
json_bytes_default = 4 * 2 ^ 20

unfoldable pub defaults : BodyLimits → Option BodyLimits
defaults b =
    if is_negative b.json_bytes || is_negative b.multipart_bytes || is_negative b.multipart_memory
    then none
    else some (record {
      json_bytes = or_default b.json_bytes json_bytes_default;
      multipart_bytes = or_default b.multipart_bytes upload_max_bytes;
      multipart_memory = or_default b.multipart_memory multipart_memory_default;
    })

abbrev pub zero_limits : BodyLimits
zero_limits = record { json_bytes = pos 0; multipart_bytes = pos 0; multipart_memory = pos 0 }

-- The two settings that options change.
pub record Settings : Type 0 where
  pub unknown_fields : String
  pub body_limits : BodyLimits

-- `HandlerOption`: a change of the handler.
abbrev pub HandlerOption : Type 0
HandlerOption = Settings → Settings

unfoldable pub with_unknown_fields : String → Option HandlerOption
with_unknown_fields policy =
    if policy == allow_unknown_fields
      || policy == reject_unknown_fields
      || policy == strip_unknown_fields
    then some (λ h. record h { unknown_fields = policy })
    else none

unfoldable pub with_body_limits : BodyLimits → Option HandlerOption
with_body_limits limits = elim (defaults limits) [
  | none ↦ none
  | some full ↦ some (λ h. record h { body_limits = full })
]
