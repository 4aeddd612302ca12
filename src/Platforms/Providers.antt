-- ===== src/Platforms/Providers.antt =====
-- internal/platforms/oauth.go and registry.go. A text of the program is its bytes, one character for each; a
-- time is a number, the zero time 0.
use cyandie_backend.Common.{
  ℕ, String, Option, none, some, List, [], ◌∷◌, if◌then◌else◌, str_eq, map,
}
use cyandie_backend.Core.Errors.{Result}

pub record OAuthToken : Type 0 where
  pub access_token : String
  pub refresh_token : String
  pub open_id : String
  pub expires_at : ℕ
  pub scope : String

pub record PlatformUser : Type 0 where
  pub platform_id : String
  pub display_name : String
  pub avatar_url : String

-- The interface `OAuthProvider`, with the answers that its platform gives.
pub record OAuthProvider : Type 0 where
  pub name : String
  pub get_auth_url : String → String
  pub exchange_code : String → Result OAuthToken
  pub get_user_info : OAuthToken → Result PlatformUser

-- A map whose first entry of a name is the one that is in force.
abbrev pub PlatformRegistry : Type 0
PlatformRegistry = List (String × OAuthProvider)

abbrev pub new_platform_registry : PlatformRegistry
new_platform_registry = []

-- An assignment to a key replaces its value.
pub register_oauth : OAuthProvider → PlatformRegistry → PlatformRegistry
register_oauth p [] = (p.name, p) ∷ []
register_oauth p ((name, q) ∷ r) =
    let rest = register_oauth p r in if str_eq name p.name then (name, p) ∷ r else (name, q) ∷ rest

abbrev pub get_oauth : String → PlatformRegistry → Option OAuthProvider
get_oauth name [] = none
get_oauth name ((k, p) ∷ r) = if str_eq k name then some p else get_oauth name r

-- `ListPlatforms`, in one of the orders of the map.
abbrev pub list_platforms : PlatformRegistry → List String
list_platforms r = map (λ e. e.0) r
