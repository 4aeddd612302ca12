-- ===== src/Platforms/Handlers.antt =====
-- internal/platforms/handler.go: the handlers of `Handler`. A body that does not decode is none.
use cyandie_backend.Common.{String, Option, List, [], ◌∷◌, map, if◌then◌else◌, str_eq}
use Prim.Native.String.{◌++◌ as append}
use cyandie_backend.Core.Errors.{Result, ok, err, panicked}
use cyandie_backend.Core.Http.{
  Response, sends, Handler, respond_plain, with_body, with_user, finish, respond_ok_plain,
}
use cyandie_backend.Db.Bindings.{PlatformBinding}
use cyandie_backend.Uuid.{UuidCodec}
use cyandie_backend.Platforms.Providers.{PlatformRegistry, list_platforms}
use cyandie_backend.Platforms.{
  PlatformTables, PlatformEnv, CallbackResult, handle_callback, bind_platform, unbind_platform,
}
use cyandie_backend.Platforms

pub record PlatformInfo : Type 0 where
  pub name : String
  pub capabilities : List String

pub record BindingInfo : Type 0 where
  pub platform : String
  pub platform_user_id : String

pub record AuthUrl : Type 0 where
  pub url : String
  pub state : String

abbrev pub mapped {ℓ κ} : {A : Type ℓ} {B : Type κ} → (A → B) → Result A → Result B
mapped f (ok a) = ok (f a)
mapped f (err e) = err e
mapped f panicked = panicked

-- `listPlatforms`
pub list_platforms_handler : PlatformRegistry → Response (List PlatformInfo)
list_platforms_handler r =
    sends 200 (map (λ name. record { name = name; capabilities = "oauth" ∷ [] }) (list_platforms r))

-- `getAuthURL`, given the digits of the time in nanoseconds
pub get_auth_url_handler : PlatformRegistry → String → String → String → Response AuthUrl
get_auth_url_handler r nanos name state =
    let state' = if str_eq state "" then append "st_" nanos else state in
    respond_plain 200
      (mapped (λ url. record { url = url; state = state' }) (Platforms.get_auth_url r name state'))

module _ (u : UuidCodec) (env : PlatformEnv) (r : PlatformRegistry) where
  -- `callback`
  unfoldable pub callback : String → Option String → Handler PlatformTables CallbackResult
  callback name body =
      with_body body λ code. finish (respond_plain 200) (handle_callback u env r name code)

  -- `bind`
  unfoldable pub bind : String → String → Option String → Handler PlatformTables String
  bind user_id name body =
      with_user user_id
        (with_body body λ code. finish respond_ok_plain (bind_platform u env r user_id name code))

  -- `unbind`
  unfoldable pub unbind : String → String → Handler PlatformTables String
  unbind user_id name =
      with_user user_id (finish respond_ok_plain (unbind_platform u env user_id name))

  -- `listBindings`
  unfoldable pub list_bindings : String → Handler PlatformTables (List BindingInfo)
  list_bindings user_id = with_user user_id λ w. (
    respond_plain 200 (
        mapped
          (map (λ (b : PlatformBinding). record {
            platform = b.platform;
            platform_user_id = b.platform_user_id;
          }))
          (Platforms.list_bindings u env user_id w)),
    w,
  )
