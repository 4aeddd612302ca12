-- ===== src/Auth/Tokens/Rotation.antt =====
-- The keys of internal/auth/jwt.go may change between signing and checking.
use cyandie_backend.Common.{
  ℕ, ◌<◌, String, some, List, [], ◌∷◌, ◌++◌, ◌≡◌, arith, Option-cases, inl, inr,
}
use cyandie_backend.Core.Errors.{ok}
use cyandie_backend.Auth.External.{Claims, Crypto}
use cyandie_backend.Auth.Tokens.{JwtKey, sign, verify}

module _ (c : Crypto) where
  -- Whatever keys check a token, no claims come out but those that were signed.
  pub verify_sound :
      (keys : List JwtKey) (now : ℕ) (secret kid token : String) (claims d : Claims)
      → c.sign_token secret kid claims ≡ some token
      → verify c keys now token ≡ ok d
      → d ≡ claims
  unfolding verify
  verify_sound [] now secret kid token claims d signed h = cc
  verify_sound (key ∷ keys) now secret kid token claims d signed h =
      elim (Option-cases (c.parse_token key.secret now token)) [
        | inl other ↦ verify_sound keys now secret kid token claims d signed (ground (arith, other))
        | inr (e, valid) ↦
            ground
              (arith, valid, c.parse_sound secret kid token key.secret now claims e signed valid)
      ]

  pub signed_with :
      (key : JwtKey) (old : List JwtKey) (token : String) (claims : Claims)
      → sign c (key ∷ old) claims ≡ ok token
      → c.sign_token key.secret key.kid claims ≡ some token
  unfolding sign
  signed_with key old token claims h = ground arith

  -- A token stays valid until it expires as long as the key that signed it is among the keys, at whatever
  -- place: new keys may be put in front and old ones behind.
  pub verify-sign :
      (new old : List JwtKey) (key : JwtKey) (now : ℕ) (token : String) (claims : Claims)
      → sign c (key ∷ old) claims ≡ ok token
      → now < claims.expires_at
      → verify c (new ++ key ∷ old) now token ≡ ok claims
  unfolding verify sign
  verify-sign [] old key now token claims signed fresh = ground (
    arith,
    signed,
    c.parse-sign key.secret key.kid token now claims (signed_with key old token claims signed)
        fresh,
  )
  verify-sign (k ∷ new) old key now token claims signed fresh =
      elim (Option-cases (c.parse_token k.secret now token)) [
        | inl other ↦ rw (other, verify) (verify-sign new old key now token claims signed fresh)
        | inr (d, valid) ↦ ground (
          arith,
          valid,
          c.parse_sound key.secret key.kid token k.secret now claims d
              (signed_with key old token claims signed) valid,
        )
      ]
