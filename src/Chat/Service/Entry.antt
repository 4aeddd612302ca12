-- ===== src/Chat/Service/Entry.antt =====
-- `tokenValidatorAdapter` of cmd/server/main.go between internal/auth/service.go and `handleAuth` of
-- internal/chat/service.go.
use cyandie_backend.Common.{
  ℕ, ◌+◌, ◌*◌, ◌<◌, String, false, Option, none, some, List, ◌∷◌, ◌++◌, ◌≡◌, str_eq, refl,
}
use cyandie_backend.Core.Errors.{Result, ok, err, panicked}
use cyandie_backend.Db.Users.{User, Accounts, AccountEnv}
use cyandie_backend.Db.Rooms.{Env}
use cyandie_backend.Uuid.{UuidCodec}
use cyandie_backend.Auth.External.{Claims, RedisClient, Crypto}
use cyandie_backend.Auth.Tokens.{JwtKey}
use cyandie_backend.Auth.Tokens.Rotation.{verify-sign}
use cyandie_backend.Auth.Service.{TokenPair, Moment, validate_token, login}
use cyandie_backend.Auth.Service.Login.{IsAdmitted, login-eq-ok}
use cyandie_backend.Auth.Guard.Access.{signed_claims}
use cyandie_backend.Chat.Messages.{Protobuf, envelope, auth_request, auth_response, auth_ok}
use cyandie_backend.Chat.Service.Hub.{ChatService, Hub, on_conn, send_envelope}
use cyandie_backend.Chat.Service.Rooms.{handle_auth}

abbrev user_id_of : Result Claims → Option String
user_id_of (ok claims) = some claims.user_id
user_id_of (err e) = none
user_id_of panicked = none

-- `tokenValidatorAdapter.ValidateToken`
unfoldable pub token_validator : Crypto → List JwtKey → ℕ → String → Option String
token_validator c keys now token = user_id_of (validate_token c keys now token)

module _ (p : Protobuf) (u : UuidCodec) (svc : ChatService) (room_env : Env) (x : RedisClient)
    (c : Crypto) where
  -- For fifteen minutes after a `Login` the access token of its pair authenticates a chat connection as
  -- the user whom the password admitted, whatever keys are put around the signing key meanwhile, if the
  -- token is not empty; the user name of the connection is whatever AUTH says.
  pub handle_auth-login :
      (new : List JwtKey) (key : JwtKey) (old : List JwtKey) (env : AccountEnv) (m : Moment)
      (t : Accounts) (username password : String) (s : x.Store) (pair : TokenPair) (now : ℕ)
      (name : String) (h : Hub)
      → (login x c (key ∷ old) u env m t username password s).0 ≡ ok pair
      → now < m.now + 15 * 60
      → str_eq pair.access_token "" ≡ false
      → svc.token_validator ≡ some (token_validator c (new ++ key ∷ old) now)
      → (user : User) × IsAdmitted c env t username password user
        × (handle_auth p u svc room_env (auth_request pair.access_token name) h
            ≡ send_envelope p
                (envelope auth_ok (auth_response (u.format user.id) ""))
                (on_conn (λ k. record k { user_id = u.format user.id; username = name }) h))
  unfolding handle_auth token_validator validate_token
  handle_auth-login new key old env m t username password s pair now name h logged fresh given
        wired =
      let (user, admitted, made) =
        (login-eq-ok x c (key ∷ old) u env m t username password s pair).0 logged in
      let valid =
        verify-sign c new old key now pair.access_token _
          (signed_claims x c (key ∷ old) m (u.format user.id) s pair made) fresh in
      (user, admitted, rw (given, wired, valid) refl)
