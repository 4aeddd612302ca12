-- ===== src/Examples/Platforms.antt =====
-- A platform of internal/platforms that tells the same identity for every code, over small tables.
use cyandie_backend.Common.{String, true, false, none, List, [], ◌∷◌, ◌≡◌, refl}
use cyandie_backend.Core.Errors.{ok}
use cyandie_backend.Db.Rows.{no_rows}
use cyandie_backend.Db.Users.{User, create_user}
use cyandie_backend.Db.Bindings.{PlatformBinding, create_platform_binding, get_platform_binding}
use cyandie_backend.Uuid.Unary.{unary_codec}
use cyandie_backend.Platforms.Providers.{OAuthToken, PlatformUser, PlatformRegistry}
use cyandie_backend.Platforms.{
  PlatformTables, PlatformEnv, identify, sign_up, handle_callback, bind_platform,
}
use cyandie_backend.Platforms.Signin.{handle_callback-again, handle_callback-bind_platform}
use cyandie_backend.Platforms.Access.{
  CanLogIn, PlatformRequest, unbinds, serve_all, serve_all-CanLogIn,
}

abbrev token : OAuthToken
token = record {
  access_token = "at";
  refresh_token = "rt";
  open_id = "o";
  expires_at = 7;
  scope = "";
}

abbrev known_as : String → PlatformUser
known_as id = record { platform_id = id; display_name = "Ann"; avatar_url = "" }

abbrev registry : String → PlatformRegistry
registry id =
    (
      "wechat",
      record {
        name = "wechat";
        get_auth_url = λ state. state;
        exchange_code = λ code. ok token;
        get_user_info = λ t. ok (known_as id);
      },
    )
    ∷ []

abbrev platform_env : PlatformEnv
platform_env = record {
  account = record { fails = λ q. false; new_id = 5 };
  binding = record { fails = λ q. false; new_id = 8; now = 100 };
}

abbrev ann : User
ann = record {
  id = 1;
  username = "ann";
  email = none;
  display_name = none;
  avatar_url = none;
  status = "active";
}

abbrev bound : String → PlatformBinding
bound name = record {
  id = 3;
  user_id = 1;
  platform = name;
  platform_user_id = "1";
  access_token = "";
  refresh_token = "";
  expires_at = none;
  metadata = none;
  created_at = 1;
  updated_at = 1;
}

abbrev platform_tables : List PlatformBinding → PlatformTables
platform_tables bs = record {
  accounts = record { users = ann ∷ []; credentials = [] };
  bindings = bs;
}

told : (id code : String) → identify (registry id) "wechat" code ≡ ok (token, known_as id)
unfolding identify
told id code = refl

signed_up :
    (handle_callback unary_codec platform_env
      (registry "openid-01")
      "wechat"
      "c1"
      (platform_tables [])).0
    ≡ ok (record { user_id = "iiiiii"; is_new_user = true })
unfolding handle_callback identify sign_up get_platform_binding create_user create_platform_binding
signed_up = refl

handle_callback-again_example :
    let w' =
      (handle_callback unary_codec platform_env
        (registry "openid-01")
        "wechat"
        "c1"
        (platform_tables [])).1 in
    handle_callback unary_codec platform_env (registry "openid-01") "wechat" "c2" w'
    ≡ (ok (record { user_id = "iiiiii"; is_new_user = false }), w')
handle_callback-again_example =
    handle_callback-again unary_codec platform_env platform_env (registry "openid-01") "wechat" "c1"
      "c2" token token (known_as "openid-01") (known_as "openid-01") (platform_tables [])
      (record { user_id = "iiiiii"; is_new_user = true }) (told "openid-01" "c1")
      (told "openid-01" "c2") refl refl signed_up

tied :
    (bind_platform unary_codec platform_env
      (registry "short")
      "ii"
      "wechat"
      "c1"
      (platform_tables [])).0
    ≡ ok tt
unfolding bind_platform identify get_platform_binding create_platform_binding
tied = refl

handle_callback-bind_platform_example :
    let w' =
      (bind_platform unary_codec platform_env
        (registry "short")
        "ii"
        "wechat"
        "c1"
        (platform_tables [])).1 in
    handle_callback unary_codec platform_env (registry "short") "wechat" "c2" w'
    ≡ (ok (record { user_id = "ii"; is_new_user = false }), w')
handle_callback-bind_platform_example =
    handle_callback-bind_platform unary_codec platform_env platform_env (registry "short") "ii"
      "wechat" "c1" "c2" token token (known_as "short") (known_as "short") (platform_tables [])
      (told "short" "c1") (told "short" "c2") refl refl tied

unbound : get_platform_binding platform_env.binding "wechat" "short" [] ≡ no_rows
unfolding get_platform_binding
unbound = refl

abbrev unbind_both : List (PlatformEnv × PlatformRequest)
unbind_both = (platform_env, unbinds "ii" "wechat") ∷ (platform_env, unbinds "ii" "steam") ∷ []

serve_all-CanLogIn_example :
    CanLogIn 1
      (serve_all unary_codec unbind_both (platform_tables (bound "wechat" ∷ bound "steam" ∷ [])))
serve_all-CanLogIn_example =
    serve_all-CanLogIn unary_codec 1 unbind_both
      (platform_tables (bound "wechat" ∷ bound "steam" ∷ [])) refl
