-- ===== src/Uuid.antt =====
-- The part of github.com/google/uuid that the program calls. A UUID is its sixteen bytes, read as one
-- number.
pub mod Unary
use cyandie_backend.Common.{ℕ, String, Option, some, ◌≡◌}

pub record UuidCodec : Type 0 where
  -- `uuid.Parse`: `none` is an error. Several texts may parse to one UUID.
  pub parse : String → Option ℕ
  -- `UUID.String`, the canonical text.
  pub format : ℕ → String
  pub parse-format : (id : ℕ) → parse (format id) ≡ some id
