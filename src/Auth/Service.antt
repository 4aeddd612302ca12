-- ===== src/Auth/Service.antt =====
-- internal/auth/service.go: the methods of `AuthService`. The clock and the random bytes that a call
-- reads are the record `Moment`.
pub mod Refresh
pub mod Login
use cyandie_backend.Common.{
  ℕ, ◌*◌, String, Bool, true, false, not, ◌||◌, Option, none, some, List, if◌then◌else◌, str_eq,
}
use Prim.Native.String.{◌++◌ as append}
use cyandie_backend.Core.Errors.{
  Result, ok, err, panicked, plain, fail, err_bad_request, err_conflict, err_internal,
  err_invalid_credentials, err_session_revoked, err_token_invalid, err_user_banned,
}
use cyandie_backend.Core.Exec.{Exec, lift, gets, guard, modify, ◌>>=◌, ◌>>◌}
pub use cyandie_backend.Db.Rows.{row_or}
use cyandie_backend.Db.Rows.{DbResult, row, no_rows, failed, null_string}
use cyandie_backend.Db.Users.{
  User, Credential, Accounts, AccountEnv, create_user, get_user_by_id, create_credential,
  get_credential_by_type_identifier,
}
use cyandie_backend.Uuid.{UuidCodec}
use cyandie_backend.Auth.External.{Session, Claims, RedisClient, Crypto}
use cyandie_backend.Auth.Sessions.{session_id, create, get, revoke}
use cyandie_backend.Auth.Tokens.{JwtKey, verify, generate_access_token}

pub record TokenPair : Type 0 where
  pub access_token : String
  pub refresh_token : String

-- What `generateTokenPair` reads: the time in seconds, the digits of the two calls of
-- `generateSessionID`, one for the token and one in `Create`, and the random bytes in hexadecimal.
pub record Moment : Type 0 where
  pub now : ℕ
  pub token_nanos : String
  pub session_nanos : String
  pub random : String

-- `generateRefreshToken`
abbrev pub refresh_token_text : String → String
refresh_token_text random = append "ref_" random

-- `fmt.Errorf(text, err)` around an error.
abbrev pub wrap {ℓ} : {A : Type ℓ} → Result A → Result A → Result A
wrap e (ok a) = ok a
wrap e (err x) = e
wrap e panicked = panicked

-- `cred.SecretHash.String`
abbrev pub string_of : Option String → String
string_of none = ""
string_of (some s) = s

-- `Register`, whose two statements are no transaction.
unfoldable pub register :
    Crypto → UuidCodec → AccountEnv → String → String → String → Exec Accounts String
register c u env username password email =
    guard (not (str_eq username "" || str_eq password ""))
      (fail err_bad_request "username and password are required")
    >> (lift (elim (c.hash_password password) [
      | none ↦ err (plain "hash password")
      | some hash ↦ ok hash
    ])
        >>= λ hash.
            (λ t.
              let (r, t') = create_user env username (null_string email) (some username) t in
              (row_or (fail err_conflict "username or email already exists") r, t'))
            >>= λ user.
                (λ t.
                  let (r, t') =
                    create_credential env
                      (record {
                        user_id = user.id;
                        type = "password";
                        identifier = username;
                        secret_hash = some hash;
                        verified = true;
                      })
                      t in
                  (row_or (err (plain "create credential")) r, t'))
                >>= λ cred. gets (λ t. u.format user.id))

module _ (x : RedisClient) (c : Crypto) (keys : List JwtKey) where
  -- `generateTokenPair`: seven days.
  unfoldable pub generate_token_pair : Moment → String → Exec x.Store TokenPair
  generate_token_pair m user_id =
      lift (
        wrap (err (plain "generate access token"))
          (generate_access_token c keys m.now user_id (session_id m.token_nanos) "user"))
      >>= λ access.
          (λ s.
            let (r, s') =
              create x c m.now m.session_nanos user_id (c.hash_token (refresh_token_text m.random))
                (7 * 24 * 60 * 60) s in
            (wrap (err (plain "create session")) r, s'))
          >>= λ session.
              gets
                (λ s. record { access_token = access; refresh_token = refresh_token_text m.random })

  -- `Login`
  unfoldable pub login :
      UuidCodec → AccountEnv → Moment → Accounts → String → String → Exec x.Store TokenPair
  login u env m t username password =
      guard (not (str_eq username "" || str_eq password ""))
        (fail err_invalid_credentials "username and password are required")
      >> (lift (
            row_or (fail err_invalid_credentials "invalid credentials")
              (get_credential_by_type_identifier env "password" username t))
          >>= λ cred.
              guard (c.matches_password (string_of cred.secret_hash) password)
                (fail err_invalid_credentials "invalid credentials")
              >> (lift (
                    row_or (fail err_internal "user not found") (get_user_by_id env cred.user_id t))
                  >>= λ user.
                      guard (str_eq user.status "active")
                        (fail err_user_banned "account is not active")
                      >> generate_token_pair m (u.format user.id)))

  -- `RefreshToken`
  unfoldable pub refresh_token : Moment → String → Exec x.Store TokenPair
  refresh_token m token =
      (λ s.
        (wrap (fail err_session_revoked "invalid or expired refresh token") (get x c token s), s))
      >>= λ session.
          (λ s.
            let (r, s') = revoke x c session.id s in
            (wrap (fail err_internal "failed to revoke old session") r, s'))
          >> generate_token_pair m session.user_id

  -- `Logout`
  unfoldable pub logout : String → Exec x.Store (Unit {0})
  logout id = revoke x c id

module _ (c : Crypto) (keys : List JwtKey) where
  -- `ValidateToken`
  unfoldable pub validate_token : ℕ → String → Result Claims
  validate_token now token = wrap (fail err_token_invalid "invalid token") (verify c keys now token)

  -- `GenerateToken`: no session.
  unfoldable pub generate_token : ℕ → String → String → Result String
  generate_token now user_id role = generate_access_token c keys now user_id "" role
