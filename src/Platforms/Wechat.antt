-- ===== src/Platforms/Wechat.antt =====
-- internal/platforms/wechat.go: the provider `WeChatProvider`. What it calls of Go's libraries and of WeChat is
-- the record `Web`.
use cyandie_backend.Common.{
  ℕ, zero, suc, String, Bool, true, false, Option, some, List, [], ◌∷◌, ◌≡◌, refl, ◌⊎◌, inl, inr,
  if◌then◌else◌, Option-cases, Bool-cases,
}
use Prim.Native.String.{◌++◌ as append}
use cyandie_backend.Common.Int.{ℤ, pos, negsuc}
use cyandie_backend.Core.Errors.{Result, ok, fail, err_platform_auth_failed}
use cyandie_backend.Db.Rows.{value_or}
use cyandie_backend.Platforms.Providers.{
  OAuthToken, PlatformUser, OAuthProvider, PlatformRegistry, get_oauth,
}
use cyandie_backend.Uuid.{UuidCodec}
use cyandie_backend.Platforms.{
  PlatformTables, PlatformEnv, identify, then_, handle_callback, bind_platform,
}

pub record WechatConfig : Type 0 where
  pub app_id : String
  pub app_secret : String
  pub redirect_uri : String

-- The answers of WeChat as `json.Unmarshal` reads them.
pub record TokenAnswer : Type 0 where
  pub access_token : String
  pub open_id : String
  pub expires_in : ℤ
  pub refresh_token : String
  pub err_code : ℤ
  pub err_msg : String

pub record UserAnswer : Type 0 where
  pub open_id : String
  pub nickname : String
  pub head_img_url : String
  pub err_code : ℤ
  pub err_msg : String

pub record Web : Type 0 where
  -- `client.Get` and the body that `io.ReadAll` gets; none is an error of the first.
  pub get : String → Option String
  pub unmarshal_token : String → Option TokenAnswer
  pub unmarshal_user : String → Option UserAnswer
  -- `url.Values.Encode`
  pub encode : List (String × String) → String
  -- `%d`
  pub format_int : ℤ → String
  -- `time.Now().Add(time.Duration(n) * time.Second)`
  pub seconds_from_now : ℤ → ℕ

abbrev pub concat : List String → String
concat [] = ""
concat (s ∷ ss) = append s (concat ss)

abbrev pub is_zero : ℤ → Bool
is_zero (pos zero) = true
is_zero (pos (suc n)) = false
is_zero (negsuc n) = false

abbrev pub auth_failed {ℓ} : {A : Type ℓ} → String → Result A
auth_failed = fail err_platform_auth_failed

module _ (web : Web) (config : WechatConfig) where
  -- `GetAuthURL`
  pub wechat_auth_url : String → String
  wechat_auth_url state = concat (
      "https://open.weixin.qq.com/connect/qrconnect?"
      ∷ web.encode (
          ("appid", config.app_id)
          ∷ ("redirect_uri", config.redirect_uri)
          ∷ ("response_type", "code")
          ∷ ("scope", "snsapi_login")
          ∷ ("state", state)
          ∷ [])
      ∷ "#wechat_redirect"
      ∷ [])

  -- `fmt.Sprintf("wechat error: %d %s", …)`
  abbrev pub wechat_error : ℤ → String → String
  wechat_error code msg = concat ("wechat error: " ∷ web.format_int code ∷ " " ∷ msg ∷ [])

  abbrev pub token_of : TokenAnswer → OAuthToken
  token_of result = record {
    access_token = result.access_token;
    refresh_token = result.refresh_token;
    open_id = result.open_id;
    expires_at = web.seconds_from_now result.expires_in;
    scope = "";
  }

  abbrev pub user_of : UserAnswer → PlatformUser
  user_of result = record {
    platform_id = result.open_id;
    display_name = result.nickname;
    avatar_url = result.head_img_url;
  }

  -- `ExchangeCode`
  unfoldable pub exchange_code : String → Result OAuthToken
  exchange_code code =
      let url = concat (
        "https://api.weixin.qq.com/sns/oauth2/access_token?appid=" ∷ config.app_id ∷ "&secret="
        ∷ config.app_secret ∷ "&code=" ∷ code ∷ "&grant_type=authorization_code" ∷ []) in
      then_ (value_or (auth_failed "wechat token exchange failed") (web.get url)) λ body.
        then_
          (value_or (auth_failed "wechat token response parse failed") (web.unmarshal_token body))
          λ result.
            if is_zero result.err_code
            then ok (token_of result)
            else auth_failed (wechat_error result.err_code result.err_msg)

  -- `GetUserInfo`
  unfoldable pub get_user_info : OAuthToken → Result PlatformUser
  get_user_info token =
      let url = concat (
        "https://api.weixin.qq.com/sns/userinfo?access_token=" ∷ token.access_token ∷ "&openid="
        ∷ token.open_id ∷ []) in
      then_ (value_or (auth_failed "wechat user info fetch failed") (web.get url)) λ body.
        then_ (value_or (auth_failed "wechat user info parse failed") (web.unmarshal_user body))
          λ result.
            if is_zero result.err_code
            then ok (user_of result)
            else auth_failed (wechat_error result.err_code result.err_msg)

  abbrev pub wechat_provider : OAuthProvider
  wechat_provider = record {
    name = "wechat";
    get_auth_url = wechat_auth_url;
    exchange_code = exchange_code;
    get_user_info = get_user_info;
  }

  exchange_code-refused :
      (code : String)
      → ((token : OAuthToken) × (exchange_code code ≡ ok token))
        ⊎ ((text : String) × (exchange_code code ≡ auth_failed text))
  unfolding exchange_code
  exchange_code-refused code =
      let url = concat (
        "https://api.weixin.qq.com/sns/oauth2/access_token?appid=" ∷ config.app_id ∷ "&secret="
        ∷ config.app_secret ∷ "&code=" ∷ code ∷ "&grant_type=authorization_code" ∷ []) in
      elim (Option-cases (web.get url)) [
        | inl down ↦ inr ("wechat token exchange failed", rw down refl)
        | inr (body, got) ↦ elim (Option-cases (web.unmarshal_token body)) [
          | inl bad ↦ inr ("wechat token response parse failed", rw (got, bad) refl)
          | inr (result, parsed) ↦ elim (Bool-cases (is_zero result.err_code)) [
            | inl fine ↦ inl (token_of result, rw (got, parsed, fine) refl)
            | inr refused ↦
                inr (wechat_error result.err_code result.err_msg, rw (got, parsed, refused) refl)
          ]
        ]
      ]

  get_user_info-refused :
      (token : OAuthToken)
      → ((user : PlatformUser) × (get_user_info token ≡ ok user))
        ⊎ ((text : String) × (get_user_info token ≡ auth_failed text))
  unfolding get_user_info
  get_user_info-refused token =
      let url = concat (
        "https://api.weixin.qq.com/sns/userinfo?access_token=" ∷ token.access_token ∷ "&openid="
        ∷ token.open_id ∷ []) in
      elim (Option-cases (web.get url)) [
        | inl down ↦ inr ("wechat user info fetch failed", rw down refl)
        | inr (body, got) ↦ elim (Option-cases (web.unmarshal_user body)) [
          | inl bad ↦ inr ("wechat user info parse failed", rw (got, bad) refl)
          | inr (result, parsed) ↦ elim (Bool-cases (is_zero result.err_code)) [
            | inl fine ↦ inl (user_of result, rw (got, parsed, fine) refl)
            | inr refused ↦
                inr (wechat_error result.err_code result.err_msg, rw (got, parsed, refused) refl)
          ]
        ]
      ]

  identify-refused :
      (r : PlatformRegistry) (code : String)
      → get_oauth "wechat" r ≡ some wechat_provider
      → ((identity : OAuthToken × PlatformUser) × (identify r "wechat" code ≡ ok identity))
        ⊎ ((text : String) × (identify r "wechat" code ≡ auth_failed text))
  unfolding identify
  identify-refused r code registered = elim (exchange_code-refused code) [
    | inr (text, refused) ↦ inr (text, rw (registered, refused) refl)
    | inl (token, exchanged) ↦ elim (get_user_info-refused token) [
      | inr (text, refused) ↦ inr (text, rw (registered, exchanged, refused) refl)
      | inl (user, told) ↦ inl ((token, user), rw (registered, exchanged, told) refl)
    ]
  ]

  -- With the WeChat provider registered, a callback either has the identity that WeChat tells for the code,
  -- or it is answered with the error of a refused authentication, as the binding of the code is, and neither
  -- changes anything.
  pub handle_callback-wechat :
      (u : UuidCodec) (env : PlatformEnv) (r : PlatformRegistry) (user_id code : String)
      (w : PlatformTables)
      → get_oauth "wechat" r ≡ some wechat_provider
      → ((identity : OAuthToken × PlatformUser) × (identify r "wechat" code ≡ ok identity))
        ⊎ ((text : String) × (handle_callback u env r "wechat" code w ≡ (auth_failed text, w))
            × (bind_platform u env r user_id "wechat" code w ≡ (auth_failed text, w)))
  unfolding handle_callback bind_platform
  handle_callback-wechat u env r user_id code w registered =
      elim (identify-refused r code registered) [
        | inl told ↦ inl told
        | inr (text, refused) ↦ inr (text, rw refused refl, rw refused refl)
      ]
