-- ===== src/Admin.antt =====
-- internal/admin/service.go: `AdminService`; its token comes from `GenerateToken` of internal/auth/service.go.
pub mod Bans
pub mod Entry
pub mod Handlers
pub mod Audit
use cyandie_backend.Common.{
  ℕ, String, Bool, true, false, not, ◌||◌, Option, none, some, List, if◌then◌else◌, ◌==◌, str_eq,
}
use cyandie_backend.Common.Int.{ℤ, pos, negsuc}
use cyandie_backend.Core.Errors.{
  Result, ok, err, panicked, fail, err_bad_request, err_forbidden, err_internal,
  err_invalid_credentials, err_not_found,
}
use cyandie_backend.Core.Exec.{Exec, pure, lift, gets, guard, ◌>>=◌, ◌>>◌}
use cyandie_backend.Db.Rows.{row_or, row_or_missing, value_or, null_string, nil_uuid}
use cyandie_backend.Db.Users.{User, Accounts, AccountEnv, Collation, search_users}
use cyandie_backend.Db.Users
use cyandie_backend.Db.Admin.{AdminUser, AuditLog, AdminTables, AdminDb, get_admin_by_username}
use cyandie_backend.Db.Admin
use cyandie_backend.Uuid.{UuidCodec}
use cyandie_backend.Auth.External.{Crypto}
use cyandie_backend.Auth.Tokens.{JwtKey}
use cyandie_backend.Auth.Service.{generate_token}

pub record AdminWorld : Type 0 where
  pub accounts : Accounts
  pub tables : AdminTables

pub record AdminEnv : Type 0 where
  pub account : AccountEnv
  pub admin : AdminDb

pub record AdminLoginResponse : Type 0 where
  pub id : String
  pub username : String
  pub role : String
  pub access_token : String

-- The ID that `opID, _ := uuid.Parse(operatorID)` gives, where `uuid.Nil` is not valid.
abbrev pub null_uuid : Option ℕ → Option ℕ
null_uuid none = none
null_uuid (some id) = if id == nil_uuid then none else some id

abbrev pub token_or : Result String → Result String
token_or (ok token) = ok token
token_or (err e) = fail err_internal "failed to generate token"
token_or panicked = panicked

-- `gets` of a call that only reads.
abbrev pub reads {ℓ} : {S A : Type ℓ} → (S → Result A) → Exec S A
reads f s = (f s, s)

module _ (c : Crypto) (keys : List JwtKey) (u : UuidCodec) (env : AdminEnv) where
  -- `Login`, at a time in seconds
  unfoldable pub login : ℕ → String → String → Exec AdminWorld AdminLoginResponse
  login now username password = do
    guard (not (str_eq username "" || str_eq password ""))
        (fail err_invalid_credentials "username and password are required")
    admin ← reads λ w.
        row_or (fail err_invalid_credentials "invalid credentials")
          (get_admin_by_username env.admin username w.tables)
    guard (str_eq admin.status "active") (fail err_forbidden "admin account is not active")
    guard (c.matches_password admin.password_hash password)
        (fail err_invalid_credentials "invalid credentials")
    token ← lift (token_or (generate_token c keys now (u.format admin.id) admin.role))
    pure (record {
      id = u.format admin.id;
      username = admin.username;
      role = admin.role;
      access_token = token;
    })

module _ (u : UuidCodec) (env : AdminEnv) where
  -- `ListUsers`
  unfoldable pub list_users : Collation → ℤ → ℤ → Exec AdminWorld (List User)
  list_users order limit offset = reads λ w.
      row_or (fail err_internal "failed to list users")
        (search_users env.account order "%" limit offset w.accounts)

  -- `UpdateUserStatus`
  unfoldable pub update_user_status : String → String → Exec AdminWorld User
  update_user_status user_id status = do
    guard (str_eq status "active" || (str_eq status "banned" || str_eq status "deleted"))
        (fail err_bad_request "invalid status: must be active, banned, or deleted")
    id ← lift (value_or (fail err_bad_request "invalid user ID") (u.parse user_id))
    λ w.
        (let (r, accounts) = Users.update_user_status env.account status id w.accounts in
          (
            row_or_missing (fail err_not_found "user not found")
                (fail err_internal "failed to update user status") r,
            record w { accounts = accounts },
          ))

  -- `ListAuditLogs`
  unfoldable pub list_audit_logs : ℤ → ℤ → Exec AdminWorld (List AuditLog)
  list_audit_logs limit offset = reads λ w.
      row_or (fail err_internal "failed to list audit logs")
        (Admin.list_audit_logs env.admin limit offset w.tables)

  -- `CreateAuditLog`
  unfoldable pub create_audit_log :
      String → String → String → String → String → String → Exec AdminWorld AuditLog
  create_audit_log operator_id action target_type target_id reason ip w =
      let (r, tables) =
        Admin.create_audit_log env.admin
          (record {
            operator_id = null_uuid (u.parse operator_id);
            action = action;
            target_type = target_type;
            target_id = target_id;
            before_value = none;
            after_value = none;
            reason = null_string reason;
            ip = null_string ip;
          })
          w.tables in
      (row_or (fail err_internal "failed to create audit log") r, record w { tables = tables })
