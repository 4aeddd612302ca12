-- ===== src/Admin/Handlers.antt =====
-- internal/admin/handler.go: the handlers of `AdminHandler`. A body that does not decode is none.
use cyandie_backend.Common.{ℕ, zero, suc, String, Option, none, some, List, if◌then◌else◌, str_eq}
use Prim.Native.String.{◌++◌ as append}
use cyandie_backend.Common.Int.{ℤ, pos, negsuc}
use cyandie_backend.Core.Errors.{
  Result, ok, err, panicked, write_http, write_app_error, new, err_bad_request,
}
use cyandie_backend.Core.Http.{sends, sends_error, panics, Handler, respond, with_body, finish}
use cyandie_backend.Db.Users.{User, Collation}
use cyandie_backend.Db.Admin.{AuditLog}
use cyandie_backend.Uuid.{UuidCodec}
use cyandie_backend.Auth.External.{Crypto}
use cyandie_backend.Auth.Tokens.{JwtKey}
use cyandie_backend.Admin.{AdminWorld, AdminEnv, AdminLoginResponse}
use cyandie_backend.Admin

pub record AdminLoginRequest : Type 0 where
  pub username : String
  pub password : String

-- `parsePagination`, given what `ParseInt(text, 10, 32)` makes of the two texts; an empty text is none.
abbrev pub limit_of : Option ℤ → ℤ
limit_of none = pos 20
limit_of (some (pos zero)) = pos 20
limit_of (some (pos (suc n))) = pos (suc n)
limit_of (some (negsuc n)) = pos 20

abbrev pub offset_of : Option ℤ → ℤ
offset_of none = pos 0
offset_of (some (pos n)) = pos n
offset_of (some (negsuc n)) = pos 0

module _ (c : Crypto) (keys : List JwtKey) (u : UuidCodec) (env : AdminEnv) where
  -- `Login`; the ID of the request comes first in each handler
  unfoldable pub login :
      String → ℕ → Option AdminLoginRequest → Handler AdminWorld AdminLoginResponse
  login id now body =
      with_body body
        λ req. finish (respond id 200) (Admin.login c keys u env now req.username req.password)

module _ (u : UuidCodec) (env : AdminEnv) where
  -- `ListUsers`
  unfoldable pub list_users :
      Collation → String → Option ℤ → Option ℤ → Handler AdminWorld (List User)
  list_users order id limit offset =
      finish (respond id 200) (Admin.list_users u env order (limit_of limit) (offset_of offset))

  -- `UpdateUserStatus` from the result of the service on: the result of `CreateAuditLog` is dropped.
  abbrev pub audited :
      String → String → String → String → String → Result User → Handler AdminWorld User
  audited id operator_id user_id status addr (ok user) w =
      let (dropped, w') =
        Admin.create_audit_log u env operator_id "update_user_status" "user" user_id
          (append "status: " status) addr w in
      (sends 200 user, w')
  audited id operator_id user_id status addr (err e) w = (sends_error (write_app_error id e), w)
  audited id operator_id user_id status addr panicked w = (panics, w)

  -- `UpdateUserStatus`, given the user of the context and the remote address
  unfoldable pub update_user_status :
      String → String → String → String → Option String → Handler AdminWorld User
  update_user_status id operator_id addr user_id body =
      if str_eq user_id ""
      then (λ w. (sends_error (write_http (new err_bad_request "user ID is required")), w))
      else with_body body λ status w.
        (let (r, w') = Admin.update_user_status u env user_id status w in
          audited id operator_id user_id status addr r w')

  -- `ListAuditLogs`
  unfoldable pub list_audit_logs : String → Option ℤ → Option ℤ → Handler AdminWorld (List AuditLog)
  list_audit_logs id limit offset =
      finish (respond id 200) (Admin.list_audit_logs u env (limit_of limit) (offset_of offset))
