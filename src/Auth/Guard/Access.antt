-- ===== src/Auth/Guard/Access.antt =====
-- Who passes `AuthGuard` and `RequireAdmin` with a token of `generateTokenPair`.

use text.Mathlib.TextLemmas.{cons-ne-nil}
use cyandie_backend.Common.{
  ℕ, ◌+◌, ◌*◌, ◌<◌, String, true, false, some, List, [], ◌∷◌, ◌++◌, ◌≡◌, ◌≢◌, refl, arith, str_eq,
  str_eq_ne, ap, inl, inr,
}
use cyandie_backend.Core.Errors.{ok, Result-cases, new}
use cyandie_backend.Auth.External.{Claims, RedisClient, Crypto}
use cyandie_backend.Auth.Sessions.{session_id, create}
use cyandie_backend.Auth.Tokens.{JwtKey, sign, verify, generate_access_token}
use cyandie_backend.Auth.Tokens.Rotation.{verify-sign, verify_sound, signed_with}
use cyandie_backend.Auth.Service.{
  TokenPair, Moment, refresh_token_text, generate_token_pair, validate_token,
}
use cyandie_backend.Auth.Guard.{
  Context, answers, serves, split_space, is_bearer, auth_guard, require_admin,
}

abbrev pub user_context : Moment → String → Context
user_context m user_id = record {
  user_id = user_id;
  session_id = session_id m.token_nanos;
  role = "user";
}

-- Another spelling of the header is refused before the token is looked at, so a header that is served
-- has the two parts.
pub split_space-nonempty :
    (header scheme token : String)
    → split_space header ≡ some (scheme, token)
    → str_eq header "" ≡ false
unfolding split_space
split_space-nonempty String.[] scheme token h = ground (arith, h)
split_space-nonempty (String.◌∷◌ c s) scheme token h =
    str_eq_ne (String.◌∷◌ c s) "" (cons-ne-nil c s)

module _ (x : RedisClient) (c : Crypto) where
  -- The claims of the token of a pair.
  pub signed_claims :
      (keys : List JwtKey) (m : Moment) (user_id : String) (s : x.Store) (pair : TokenPair)
      → (generate_token_pair x c keys m user_id s).0 ≡ ok pair
      → sign c keys (record {
        user_id = user_id;
        session_id = session_id m.token_nanos;
        role = "user";
        expires_at = m.now + 15 * 60;
        issued_at = m.now;
      })
        ≡ ok pair.access_token
  unfolding generate_token_pair generate_access_token
  signed_claims keys m user_id s pair h =
      elim (Result-cases (
        sign c keys (record {
          user_id = user_id;
          session_id = session_id m.token_nanos;
          role = "user";
          expires_at = m.now + 15 * 60;
          issued_at = m.now;
        }))) [
          | inl (access, signed) ↦
              elim (Result-cases
                (create x c m.now m.session_nanos user_id
                  (c.hash_token (refresh_token_text m.random)) (7 * 24 * 60 * 60) s).0) [
                    | inl (session, kept) ↦ ground (arith, signed, kept, h)
                    | inr (inl (e, failed)) ↦ ground (arith, signed, failed, h)
                    | inr (inr failed) ↦ ground (arith, signed, failed, h)
                  ]
          | inr (inl (e, failed)) ↦ ground (arith, failed, h)
          | inr (inr failed) ↦ ground (arith, failed, h)
        ]

  -- For fifteen minutes the access token of a pair passes `AuthGuard` behind a "bearer" of any case, with
  -- the user of the pair, whatever keys are put in front of the signing key or behind it meanwhile; and
  -- `RequireAdmin` behind it answers 403.
  pub auth_guard-generate_token_pair :
      (new : List JwtKey) (key : JwtKey) (old : List JwtKey) (m : Moment) (user_id : String)
      (s : x.Store) (pair : TokenPair) (now : ℕ) (header scheme : String)
      → (generate_token_pair x c (key ∷ old) m user_id s).0 ≡ ok pair
      → now < m.now + 15 * 60
      → split_space header ≡ some (scheme, pair.access_token)
      → is_bearer scheme ≡ true
      → (auth_guard c (new ++ key ∷ old) now header ≡ serves (user_context m user_id))
        × (require_admin (auth_guard c (new ++ key ∷ old) now header)
            ≡ answers "{\"error\":\"forbidden\"}" 403)
  unfolding auth_guard validate_token require_admin
  auth_guard-generate_token_pair new key old m user_id s pair now header scheme made fresh parts
        bearer =
      let valid =
        verify-sign c new old key now pair.access_token _
          (signed_claims (key ∷ old) m user_id s pair made) fresh in
      let full = split_space-nonempty header scheme pair.access_token parts in
      let passed : auth_guard c (new ++ key ∷ old) now header ≡ serves (user_context m user_id) =
        rw (full, parts, bearer, valid) refl in
      (passed, rw passed refl)

  -- Under whatever keys and at whatever time, no header that carries the access token of a pair passes
  -- `RequireAdmin`.
  pub require_admin-auth_guard :
      (keys later : List JwtKey) (m : Moment) (user_id : String) (s : x.Store) (pair : TokenPair)
      (now : ℕ) (header scheme : String) (ctx : Context)
      → (generate_token_pair x c keys m user_id s).0 ≡ ok pair
      → split_space header ≡ some (scheme, pair.access_token)
      → require_admin (auth_guard c later now header) ≢ serves ctx
  unfolding auth_guard validate_token require_admin sign
  require_admin-auth_guard [] later m user_id s pair now header scheme ctx made parts =
      λ h. ground (arith, signed_claims [] m user_id s pair made)
  require_admin-auth_guard (key ∷ old) later m user_id s pair now header scheme ctx made parts =
      λ h.
        let signed =
          signed_with c key old pair.access_token _
            (signed_claims (key ∷ old) m user_id s pair made) in
        elim (Result-cases (verify c later now pair.access_token)) [
          | inl (d, valid) ↦
              let role_eq =
                ap (λ (e : Claims). e.role)
                  (verify_sound c later now key.secret key.kid pair.access_token _ d signed
                    valid) in
              let not_admin : str_eq d.role "admin" ≡ false = rw role_eq refl in
              ground (arith, parts, valid, not_admin, h)
          | inr (inl (e, failed)) ↦ ground (arith, parts, failed, h)
          | inr (inr failed) ↦ ground (arith, parts, failed, h)
        ]
