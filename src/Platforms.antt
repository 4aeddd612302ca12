-- ===== src/Platforms.antt =====
-- internal/platforms/service.go: `PlatformService`.
pub mod Providers
pub mod Signin
pub mod Access
pub mod Wechat
pub mod Handlers
use cyandie_backend.Common.{
  ℕ, zero, suc, String, Bool, true, false, ◌&&◌, not, Option, none, some, List, [], ◌∷◌,
  if◌then◌else◌, ◌==◌, str_eq, any, keep, length,
}
use Prim.Native.Char.{Char}
use Prim.Native.String.{◌++◌ as append}
use cyandie_backend.Core.Errors.{
  Result, ok, err, panicked, plain, database, fail, err_internal, err_last_credential,
  err_platform_binding_exists, err_platform_not_bound, err_platform_not_supported,
}
use cyandie_backend.Core.Exec.{Exec, pure, lift, gets, guard, modify, ◌>>=◌, ◌>>◌}
use cyandie_backend.Db.Rows.{DbResult, row, no_rows, failed, row_or, value_or, nil_uuid}
use cyandie_backend.Db.Users.{Accounts, AccountEnv, create_user, count_user_credentials}
use cyandie_backend.Db.Bindings.{
  PlatformBinding, CreatePlatformBindingParams, BindingEnv, create_platform_binding,
  delete_platform_binding, get_platform_binding, get_platform_bindings_by_user_id,
}
use cyandie_backend.Uuid.{UuidCodec}
use cyandie_backend.Platforms.Providers.{
  OAuthToken, PlatformUser, OAuthProvider, PlatformRegistry, get_oauth,
}

pub record PlatformTables : Type 0 where
  pub accounts : Accounts
  pub bindings : List PlatformBinding

pub record PlatformEnv : Type 0 where
  pub account : AccountEnv
  pub binding : BindingEnv

pub record CallbackResult : Type 0 where
  pub user_id : String
  pub is_new_user : Bool

-- `len(s)`
abbrev pub string_length : String → ℕ
string_length String.[] = 0
string_length (String.◌∷◌ c s) = suc (string_length s)

abbrev pub prefixed : Char → Option String → Option String
prefixed c none = none
prefixed c (some s) = some (String.◌∷◌ c s)

-- `s[:n]`, where none is the panic of a slice beyond the length.
abbrev pub slice : ℕ → String → Option String
slice zero s = some String.[]
slice (suc n) String.[] = none
slice (suc n) (String.◌∷◌ c s) = prefixed c (slice n s)

-- The ID that `uid, _ := uuid.Parse(userID)` leaves.
abbrev pub id_or_nil : Option ℕ → ℕ
id_or_nil none = nil_uuid
id_or_nil (some id) = id

abbrev pub not_supported {ℓ} : {A : Type ℓ} → String → Result A
not_supported name = fail err_platform_not_supported (append "platform not supported: " name)

abbrev pub null_time : ℕ → Option ℕ
null_time zero = none
null_time (suc n) = some (suc n)

-- The row that a token and an identity give.
abbrev pub binding_params : ℕ → String → OAuthToken → PlatformUser → CreatePlatformBindingParams
binding_params user_id platform token user = record {
  user_id = user_id;
  platform = platform;
  platform_user_id = user.platform_id;
  access_token = token.access_token;
  refresh_token = token.refresh_token;
  expires_at = null_time token.expires_at;
  metadata = some "{}";
}

abbrev pub then_ {ℓ κ} : {A : Type ℓ} {B : Type κ} → Result A → (A → Result B) → Result B
then_ (ok a) f = f a
then_ (err e) f = err e
then_ panicked f = panicked

-- The head of `HandleCallback` and of `BindPlatform`: the identity that the platform tells for a code.
unfoldable pub identify : PlatformRegistry → String → String → Result (OAuthToken × PlatformUser)
identify r name code = then_ (value_or (not_supported name) (get_oauth name r)) λ provider.
    then_ (provider.exchange_code code)
      λ token. then_ (provider.get_user_info token) λ user. ok (token, user)

-- `err == nil && existing.UserID != uid`
abbrev pub is_taken_by_other : ℕ → DbResult PlatformBinding → Bool
is_taken_by_other uid (row b) = not (b.user_id == uid)
is_taken_by_other uid no_rows = false
is_taken_by_other uid failed = false

abbrev pub count_or_zero : DbResult ℕ → ℕ
count_or_zero (row n) = n
count_or_zero no_rows = 0
count_or_zero failed = 0

-- `GetAuthURL`
unfoldable pub get_auth_url : PlatformRegistry → String → String → Result String
get_auth_url r name state =
    then_ (value_or (not_supported name) (get_oauth name r)) λ p. ok (p.get_auth_url state)

module _ (u : UuidCodec) (env : PlatformEnv) where
  abbrev pub insert_binding :
      CreatePlatformBindingParams → Result PlatformBinding → Exec PlatformTables PlatformBinding
  insert_binding arg e w =
      let (r, bindings) =
        create_platform_binding env.binding (λ id. any (λ v. v.id == id) w.accounts.users) arg
          w.bindings in
      (row_or e r, record w { bindings = bindings })

  -- `HandleCallback` from the creation of the user on.
  unfoldable pub sign_up : String → OAuthToken → PlatformUser → Exec PlatformTables CallbackResult
  sign_up name token user = do
    first ← lift (value_or panicked (slice 8 user.platform_id))
    created ← λ w.
        (let (r, accounts) =
            create_user env.account (append "wx_" first) none (some user.display_name) w.accounts in
          (row_or (fail err_internal "failed to create user") r, record w { accounts = accounts }))
    bound ←
        insert_binding (binding_params created.id name token user)
          (fail err_internal "failed to create platform binding")
    pure (record { user_id = u.format created.id; is_new_user = true })

  -- The rest of `HandleCallback` after the lookup of the binding.
  abbrev pub known_or_new :
      String
      → OAuthToken
      → PlatformUser
      → DbResult PlatformBinding
      → Exec PlatformTables CallbackResult
  known_or_new name token user (row b) =
      pure (record { user_id = u.format b.user_id; is_new_user = false })
  known_or_new name token user no_rows = sign_up name token user
  known_or_new name token user failed = sign_up name token user

  -- `HandleCallback`
  unfoldable pub handle_callback :
      PlatformRegistry → String → String → Exec PlatformTables CallbackResult
  handle_callback r name code = do
    identity ← lift (identify r name code)
    λ w.
        known_or_new name identity.0 identity.1
          (get_platform_binding env.binding name identity.1.platform_id w.bindings) w

  -- `BindPlatform`
  unfoldable pub bind_platform :
      PlatformRegistry → String → String → String → Exec PlatformTables (Unit {0})
  bind_platform r user_id name code = do
    identity ← lift (identify r name code)
    λ w.
        (let uid = id_or_nil (u.parse user_id) in
          let existing = get_platform_binding env.binding name identity.1.platform_id w.bindings in
          if is_taken_by_other uid existing
          then (
            fail err_platform_binding_exists "platform identity already bound to another user",
            w,
          )
          else (insert_binding (binding_params uid name identity.0 identity.1)
                  (err (plain "create binding"))
                >>= λ b. pure tt)
              w)

  -- `UnbindPlatform`
  unfoldable pub unbind_platform : String → String → Exec PlatformTables (Unit {0})
  unbind_platform user_id name = do
    let uid = id_or_nil (u.parse user_id)
    bindings ← λ w. (
      row_or (fail err_platform_not_bound "no platform bindings found")
          (get_platform_bindings_by_user_id env.binding uid w.bindings),
      w,
    )
    guard (any (λ b. str_eq b.platform name) bindings)
        (fail err_platform_not_bound "platform not bound")
    cred_count ← gets λ w. count_or_zero (count_user_credentials env.account uid w.accounts)
    let other_bindings = length (keep (λ b. not (str_eq b.platform name)) bindings)
    guard (not ((cred_count == 0) && (other_bindings == 0)))
        (fail err_last_credential "cannot unbind last credential, set a password first")
    deleted ← λ w.
        (let (r, rest) = delete_platform_binding env.binding uid name w.bindings in
          (row_or (err (plain "delete binding")) r, record w { bindings = rest }))
    pure tt

  -- `ListBindings`
  unfoldable pub list_bindings : String → PlatformTables → Result (List PlatformBinding)
  list_bindings user_id w =
      row_or (err database)
        (get_platform_bindings_by_user_id env.binding (id_or_nil (u.parse user_id)) w.bindings)
