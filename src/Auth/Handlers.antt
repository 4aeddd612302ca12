-- ===== src/Auth/Handlers.antt =====
-- internal/auth/handler.go: the handlers of `Handler`. A body that does not decode is none.
use cyandie_backend.Common.{String, Option, List, if◌then◌else◌, str_eq}
use cyandie_backend.Core.Errors.{write_http, new, err_bad_request}
use cyandie_backend.Core.Http.{sends_error, Handler, respond, with_body, finish, respond_ok}
use cyandie_backend.Db.Users.{Accounts, AccountEnv}
use cyandie_backend.Uuid.{UuidCodec}
use cyandie_backend.Auth.External.{RedisClient, Crypto}
use cyandie_backend.Auth.Tokens.{JwtKey}
use cyandie_backend.Auth.Service.{TokenPair, Moment}
use cyandie_backend.Auth.Service

pub record RegisterRequest : Type 0 where
  pub username : String
  pub password : String
  pub email : String

pub record LoginRequest : Type 0 where
  pub username : String
  pub password : String

-- `register`; the ID of the request comes first in each handler
unfoldable pub register_handler :
    Crypto → UuidCodec → AccountEnv → String → Option RegisterRequest → Handler Accounts String
register_handler c u env id body =
    with_body body
      λ req. finish (respond id 201) (Service.register c u env req.username req.password req.email)

module _ (x : RedisClient) (c : Crypto) (keys : List JwtKey) where
  -- `login`
  unfoldable pub login_handler :
      UuidCodec
      → AccountEnv
      → Moment
      → Accounts
      → String
      → Option LoginRequest
      → Handler x.Store TokenPair
  login_handler u env m t id body =
      with_body body
        λ req. finish (respond id 200) (Service.login x c keys u env m t req.username req.password)

  -- `refresh`
  unfoldable pub refresh_handler : Moment → String → Option String → Handler x.Store TokenPair
  refresh_handler m id body =
      with_body body λ token. finish (respond id 200) (Service.refresh_token x c keys m token)

  -- `logout`, given the header "X-Session-ID"
  unfoldable pub logout_handler : String → String → Handler x.Store String
  logout_handler id session_id s =
      if str_eq session_id ""
      then (sends_error (write_http (new err_bad_request "missing session id")), s)
      else finish (respond_ok id) (Service.logout x c keys session_id) s
