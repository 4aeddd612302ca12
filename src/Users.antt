-- ===== src/Users.antt =====
-- internal/users/service.go: `UserService`.
pub mod Profiles
pub mod Handlers
use cyandie_backend.Common.{
  ℕ, ◌+◌, ◌%◌, ◌-◌, ◌^◌, String, Bool, Option, none, some, List, [], ◌∷◌, map, if◌then◌else◌, ltb,
}
use cyandie_backend.Common.Int.{ℤ, pos, negsuc}
use cyandie_backend.Core.Errors.{Result, ok, err, plain, fail, err_bad_request, err_not_found}
use cyandie_backend.Core.Exec.{Exec, pure, lift, ◌>>=◌}
use cyandie_backend.Db.Rows.{row_or, value_or}
use cyandie_backend.Db.Users.{Accounts, AccountEnv, Collation, get_user_by_id, update_user_profile}
use cyandie_backend.Db.Users
use cyandie_backend.Uuid.{UuidCodec}

pub record User : Type 0 where
  pub id : String
  pub username : String
  pub email : String
  pub display_name : String
  pub avatar_url : String
  pub status : String

pub record UpdateProfileRequest : Type 0 where
  pub display_name : Option String
  pub avatar_url : Option String

pub record Pagination : Type 0 where
  pub limit : ℤ
  pub offset : ℤ

-- The field `String` of a `sql.NullString`.
abbrev pub string_of : Option String → String
string_of none = ""
string_of (some s) = s

-- `int32(n)`: the lower half of the number, as a signed one.
abbrev pub signed : ℕ → ℤ
signed n = if ltb n 2147483648 then pos n else negsuc (4294967295 - n)

unfoldable pub int32 : ℤ → ℤ
int32 (pos n) = signed (n % 2 ^ 32)
int32 (negsuc n) = signed (4294967295 - n % 2 ^ 32)

-- `toUser`
abbrev pub to_user : UuidCodec → Users.User → User
to_user u row = record {
  id = u.format row.id;
  username = row.username;
  email = string_of row.email;
  display_name = string_of row.display_name;
  avatar_url = string_of row.avatar_url;
  status = row.status;
}

module _ (u : UuidCodec) (env : AccountEnv) where
  -- `GetUser`
  unfoldable pub get_user : String → Exec Accounts User
  get_user id = do
    uid ← lift (value_or (fail err_bad_request "invalid user id") (u.parse id))
    v ← λ t. (row_or (fail err_not_found "user not found") (get_user_by_id env uid t), t)
    pure (to_user u v)

  -- `UpdateProfile`
  unfoldable pub update_profile : String → UpdateProfileRequest → Exec Accounts (Unit {0})
  update_profile id req = do
    uid ← lift (value_or (fail err_bad_request "invalid user id") (u.parse id))
    v ← λ t.
        (let (r, t') = update_user_profile env req.display_name req.avatar_url uid t in
          (row_or (err (plain "update profile")) r, t'))
    pure tt

  -- `SearchUsers`
  unfoldable pub search_users : Collation → String → Pagination → Exec Accounts (List User)
  search_users order query page = do
    users ← λ t. (
      row_or (err (plain "search users"))
          (Users.search_users env order query (int32 page.limit) (int32 page.offset) t),
      t,
    )
    pure (map (to_user u) users)
