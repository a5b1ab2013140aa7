-- ===== src/Validate.antt =====
-- validate/: what the write path does to a decoded payload before the entity sees it.
pub mod Media
pub mod Readonly
pub mod Unknown
pub mod Structural
pub mod Markers
pub mod Widen
pub mod Write
use editrig_go.Base.{String}

-- `FieldError` of validate/structural.go.
pub record FieldError : Type 0 where
  pub field : String
  pub message : String
