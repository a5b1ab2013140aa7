-- ===== src/Handler/Configured.antt =====
-- What `NewHandler` builds.
use editrig_go.Base.{◌≡◌, refl, Option, some, List, [], ◌∷◌, All, inl}
use editrig_go.Map.{Map}
use editrig_go.Config.{
  BodyLimits, Settings, HandlerOption, defaults, zero_limits, json_bytes_default, pos,
  multipart_memory_default, upload_max_bytes,
}
use editrig_go.Validate.Unknown.{allow_unknown_fields}
use editrig_go.Config.Laws.{IsConfigured, IsBuilt, IsBuilt-IsConfigured, defaults-IsLimited}
use editrig_go.Entity.{Entity}
use editrig_go.Handler.{Handler, Copy, apply_options, new_handler}

apply_options-IsConfigured :
    (options : List HandlerOption) (h : Settings)
    → All IsBuilt options
    → IsConfigured h
    → IsConfigured (apply_options options h)
apply_options-IsConfigured [] h a c = c
apply_options-IsConfigured (f ∷ options) h (b, a) c =
    apply_options-IsConfigured options (f h) a (IsBuilt-IsConfigured f h b c)

abbrev default_limits : BodyLimits
default_limits = record {
  json_bytes = pos json_bytes_default;
  multipart_bytes = pos upload_max_bytes;
  multipart_memory = pos multipart_memory_default;
}

defaults-zero_limits : defaults zero_limits ≡ some default_limits
unfolding defaults
defaults-zero_limits = refl

-- A handler that is built over a registry with options that the two option constructors returned
-- serves that registry, and has positive limits and one of the three policies.
pub new_handler-IsConfigured :
    {S : Type 0} (reg : Map (Entity S)) (copy : Option Copy) (options : List HandlerOption)
    → All IsBuilt options
    → (h : Handler S) × (new_handler (some reg) copy options ≡ some h)
      × (h.reg ≡ reg)
      × IsConfigured h.settings
unfolding new_handler defaults
new_handler-IsConfigured reg copy options a = (
  _,
  refl,
  refl,
  apply_options-IsConfigured options
      (record { unknown_fields = allow_unknown_fields; body_limits = default_limits }) a
      (record {
        limited = defaults-IsLimited zero_limits default_limits defaults-zero_limits;
        policy = inl refl;
      }),
)
