-- ===== src/Auth/Service/Login.antt =====
-- What a success of `Login` in internal/auth/service.go rests on, and what its access token says.
use cyandie_backend.Common.{String, true, false, List, ◌≡◌, ◌↔◌, arith, str_eq, ap, ◌∙◌, inl, inr}
use cyandie_backend.Core.Errors.{ok}
use cyandie_backend.Db.Rows.{DbResult-cases, row}
use cyandie_backend.Db.Users.{
  User, Credential, Accounts, AccountEnv, get_user_by_id, get_credential_by_type_identifier,
}
use cyandie_backend.Uuid.{UuidCodec}
use cyandie_backend.Auth.External.{RedisClient, Crypto}
use cyandie_backend.Auth.Tokens.{JwtKey}
use cyandie_backend.Auth.Service.{TokenPair, Moment, string_of, generate_token_pair, login}

-- The name has a credential of type "password" whose hash the password matches, and the
-- credential's user is active.
pub record IsAdmitted (c : Crypto) (env : AccountEnv) (t : Accounts) (username password : String)
    (user : User) : Type 0 where
  pub cred : Credential
  pub has_name : str_eq username "" ≡ false
  pub has_password : str_eq password "" ≡ false
  pub is_found : get_credential_by_type_identifier env "password" username t ≡ row cred
  pub is_matched : c.matches_password (string_of cred.secret_hash) password ≡ true
  pub is_user : get_user_by_id env cred.user_id t ≡ row user
  pub is_active : str_eq user.status "active" ≡ true

module _ (x : RedisClient) (c : Crypto) (keys : List JwtKey) (u : UuidCodec) where
  -- Whoever is admitted gets what `generateTokenPair` makes for the user of the credential.
  login_admitted :
      (env : AccountEnv) (m : Moment) (t : Accounts) (username password : String) (s : x.Store)
      (user : User)
      → IsAdmitted c env t username password user
      → login x c keys u env m t username password s
        ≡ generate_token_pair x c keys m (u.format user.id) s
  unfolding login
  login_admitted env m t username password s user a =
      ground (arith, a.has_name, a.has_password, a.is_found, a.is_matched, a.is_user, a.is_active)

  -- `Login` gives out a pair just in case of admission and of a success of `generateTokenPair`.
  pub login-eq-ok :
      (env : AccountEnv) (m : Moment) (t : Accounts) (username password : String) (s : x.Store)
      (pair : TokenPair)
      → ((login x c keys u env m t username password s).0 ≡ ok pair) ↔ (
          (user : User) × IsAdmitted c env t username password user
          × ((generate_token_pair x c keys m (u.format user.id) s).0 ≡ ok pair))
  unfolding login
  login-eq-ok env m t username password s pair = (
    λ h. elim (DbResult-cases (get_credential_by_type_identifier env "password" username t)) [
      | inl (cred, found) ↦ elim (DbResult-cases (get_user_by_id env cred.user_id t)) [
        | inl (user, known) ↦ (
          user,
          record {
            cred = cred;
            has_name = ground (arith, h);
            has_password = ground (arith, h);
            is_found = found;
            is_matched = ground (arith, h, found);
            is_user = known;
            is_active = ground (arith, h, found, known);
          },
          ground (arith, h, found, known),
        )
        | inr (inl missing) ↦ ground (arith, h, found, missing)
        | inr (inr broken) ↦ ground (arith, h, found, broken)
      ]
      | inr (inl missing) ↦ ground (arith, h, missing)
      | inr (inr broken) ↦ ground (arith, h, broken)
    ],
    λ (user, a, made). ap (λ r. r.0) (login_admitted env m t username password s user a) ∙ made,
  )
