-- ===== src/Auth/Tokens.antt =====
-- internal/auth/jwt.go: `KeyManager`.
pub mod Rotation
use cyandie_backend.Common.{
  ℕ, ◌+◌, ◌*◌, String, Bool, true, false, Option, none, some, List, [], ◌∷◌, if◌then◌else◌,
}
use cyandie_backend.Core.Errors.{Result, ok, err, plain}
use cyandie_backend.Auth.External.{Claims, Crypto}

pub record JwtKey : Type 0 where
  pub kid : String
  pub secret : String

module _ (c : Crypto) where
  abbrev pub signed_or_fail : Option String → Result String
  signed_or_fail none = err (plain "sign token")
  signed_or_fail (some token) = ok token

  -- `Sign`: the first key signs.
  unfoldable pub sign : List JwtKey → Claims → Result String
  sign [] claims = err (plain "no JWT keys configured")
  sign (key ∷ keys) claims = signed_or_fail (c.sign_token key.secret key.kid claims)

  -- `Verify`: the first key under which the token is valid gives the claims.
  unfoldable pub verify : List JwtKey → ℕ → String → Result Claims
  verify [] now token = err (plain "token verification failed")
  verify (key ∷ keys) now token = elim (c.parse_token key.secret now token) [
    | none ↦ verify keys now token
    | some claims ↦ ok claims
  ]

  -- `GenerateAccessToken`: fifteen minutes.
  unfoldable pub generate_access_token : List JwtKey → ℕ → String → String → String → Result String
  unfolding sign
  generate_access_token keys now user_id session_id role = sign keys (record {
    user_id = user_id;
    session_id = session_id;
    role = role;
    expires_at = now + 15 * 60;
    issued_at = now;
  })
