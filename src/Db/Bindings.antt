-- ===== src/Db/Bindings.antt =====
-- internal/db/platform_bindings.sql.go over the table `platform_bindings`, whose pairs of a platform and a
-- user id of it are unique.
use cyandie_backend.Common.{
  ℕ, String, Bool, not, ◌&&◌, ◌||◌, Option, List, [], ◌∷◌, ◌++◌, if◌then◌else◌, ◌==◌, str_eq, find,
  any, keep,
}
use cyandie_backend.Db.Rows.{DbResult, row, failed, first_row}

pub record PlatformBinding : Type 0 where
  pub id : ℕ
  pub user_id : ℕ
  pub platform : String
  pub platform_user_id : String
  pub access_token : String
  pub refresh_token : String
  pub expires_at : Option ℕ
  pub metadata : Option String
  pub created_at : ℕ
  pub updated_at : ℕ

pub record CreatePlatformBindingParams : Type 0 where
  pub user_id : ℕ
  pub platform : String
  pub platform_user_id : String
  pub access_token : String
  pub refresh_token : String
  pub expires_at : Option ℕ
  pub metadata : Option String

pub data BindingQuery : Type 0 where
  create_platform_binding_q delete_platform_binding_q : BindingQuery
  get_platform_binding_q get_platform_bindings_by_user_id_q : BindingQuery

-- Which statements break, the next key and the clock.
pub record BindingEnv : Type 0 where
  pub fails : BindingQuery → Bool
  pub new_id : ℕ
  pub now : ℕ

abbrev pub is_binding : String → String → PlatformBinding → Bool
is_binding platform platform_user_id b =
    str_eq b.platform platform && str_eq b.platform_user_id platform_user_id

abbrev pub is_binding_of : ℕ → String → PlatformBinding → Bool
is_binding_of user_id platform b = (b.user_id == user_id) && str_eq b.platform platform

abbrev pub new_binding : BindingEnv → CreatePlatformBindingParams → PlatformBinding
new_binding env arg = record {
  id = env.new_id;
  user_id = arg.user_id;
  platform = arg.platform;
  platform_user_id = arg.platform_user_id;
  access_token = arg.access_token;
  refresh_token = arg.refresh_token;
  expires_at = arg.expires_at;
  metadata = arg.metadata;
  created_at = env.now;
  updated_at = env.now;
}

module _ (env : BindingEnv) where
  -- The first argument tells the ids of the table `users`.
  unfoldable pub create_platform_binding :
      (ℕ → Bool)
      → CreatePlatformBindingParams
      → List PlatformBinding
      → DbResult PlatformBinding × List PlatformBinding
  create_platform_binding is_user arg t =
      if env.fails create_platform_binding_q
        || (not (is_user arg.user_id) || any (is_binding arg.platform arg.platform_user_id) t)
      then (failed, t)
      else (row (new_binding env arg), t ++ new_binding env arg ∷ [])

  unfoldable pub delete_platform_binding :
      ℕ → String → List PlatformBinding → DbResult PlatformBinding × List PlatformBinding
  delete_platform_binding user_id platform t =
      if env.fails delete_platform_binding_q then (failed, t) else (
        first_row (find (is_binding_of user_id platform) t),
        keep (λ b. not (is_binding_of user_id platform b)) t,
      )

  unfoldable pub get_platform_binding :
      String → String → List PlatformBinding → DbResult PlatformBinding
  get_platform_binding platform platform_user_id t =
      if env.fails get_platform_binding_q
      then failed
      else first_row (find (is_binding platform platform_user_id) t)

  unfoldable pub get_platform_bindings_by_user_id :
      ℕ → List PlatformBinding → DbResult (List PlatformBinding)
  get_platform_bindings_by_user_id user_id t =
      if env.fails get_platform_bindings_by_user_id_q
      then failed
      else row (keep (λ b. b.user_id == user_id) t)
