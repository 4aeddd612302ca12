-- ===== src/Admin/Audit.antt =====
-- The audit log behind `UpdateUserStatus` of internal/admin/handler.go.
use cyandie_backend.Common.{
  String, true, false, none, some, [], ◌∷◌, ◌++◌, ◌≡◌, refl, ap, ◌∙◌, arith, str_eq, Bool-cases,
  inl, inr,
}
use Prim.Native.String.{◌++◌ as append}
use cyandie_backend.Core.Errors.{Result-cases}
use cyandie_backend.Core.Http.{sends}
use cyandie_backend.Db.Rows.{null_string}
use cyandie_backend.Db.Users.{User}
use cyandie_backend.Db.Admin.{
  AuditLog, AdminTables, AdminDb, CreateAuditLogParams, create_audit_log_q, is_operator,
  new_audit_log,
}
use cyandie_backend.Db.Admin
use cyandie_backend.Uuid.{UuidCodec}
use cyandie_backend.Admin.{AdminWorld, AdminEnv, null_uuid, update_user_status, create_audit_log}
use cyandie_backend.Admin.Handlers
use cyandie_backend.Admin.Bans.{update_user_status-ok}

create_audit_log-logs :
    (env : AdminDb) (arg : CreateAuditLogParams) (t : AdminTables)
    → env.fails create_audit_log_q ≡ false
    → is_operator t.admins arg.operator_id ≡ true
    → (Admin.create_audit_log env arg t).1
      ≡ record t { audit_logs = t.audit_logs ++ new_audit_log env arg ∷ [] }
unfolding Admin.create_audit_log
create_audit_log-logs env arg t answers known = rw (answers, known) refl

create_audit_log-failed :
    (env : AdminDb) (arg : CreateAuditLogParams) (t : AdminTables)
    → env.fails create_audit_log_q ≡ true
    → (Admin.create_audit_log env arg t).1 ≡ t
unfolding Admin.create_audit_log
create_audit_log-failed env arg t broken = rw broken refl

abbrev status_params : UuidCodec → String → String → String → String → CreateAuditLogParams
status_params u operator_id status user_id addr = record {
  operator_id = null_uuid (u.parse operator_id);
  action = "update_user_status";
  target_type = "user";
  target_id = user_id;
  before_value = none;
  after_value = none;
  reason = null_string (append "status: " status);
  ip = null_string addr;
}

-- The row of a change of status.
pub record IsStatusLog (u : UuidCodec) (operator_id status user_id : String) (l : AuditLog)
    : Type 0 where
  pub same_operator : l.operator_id ≡ null_uuid (u.parse operator_id)
  pub same_action : l.action ≡ "update_user_status"
  pub same_target : l.target_id ≡ user_id
  pub same_reason : l.reason ≡ null_string (append "status: " status)

module _ (u : UuidCodec) (env : AdminEnv) where
  -- A change of status that is answered with a success has added one row to the audit log, with its operator, its
  -- target and the new status, provided that the insertion works and the operator is an administrator; a failed
  -- insertion is answered with the same success, and the log is as it was.
  pub update_user_status-audit_logs :
      (id operator_id addr user_id status : String) (w : AdminWorld) (v : User)
      → (Handlers.update_user_status u env id operator_id addr user_id (some status) w).0
        ≡ sends 200 v
      → let w' =
          (Handlers.update_user_status u env id operator_id addr user_id (some status) w).1 in
        (env.admin.fails create_audit_log_q ≡ false
          → is_operator w.tables.admins (null_uuid (u.parse operator_id)) ≡ true
          → (l : AuditLog) × IsStatusLog u operator_id status user_id l
            × (w'.tables.audit_logs ≡ (w.tables.audit_logs ++ l ∷ [])))
        × (env.admin.fails create_audit_log_q ≡ true → w'.tables ≡ w.tables)
  unfolding Handlers.update_user_status create_audit_log
  update_user_status-audit_logs id operator_id addr user_id status w v h =
      let arg = status_params u operator_id status user_id addr in
      elim (Bool-cases (str_eq user_id "")) [
        | inl nobody ↦ ground (arith, nobody, h)
        | inr named ↦ elim (Result-cases (update_user_status u env user_id status w).0) [
          | inr (inl (e, refused)) ↦ ground (arith, named, refused, h)
          | inr (inr broken) ↦ ground (arith, named, broken, h)
          | inl (v', done) ↦
              let (k, parsed, valid, row_done, state) =
                update_user_status-ok u env user_id status w v' done in
              let same = ap (λ (z : AdminWorld). z.tables) state in
              (
                λ works known. (
                  new_audit_log env.admin arg,
                  record {
                    same_operator = refl;
                    same_action = refl;
                    same_target = refl;
                    same_reason = refl;
                  },
                  rw (named, done)
                      (ap (λ t. (Admin.create_audit_log env.admin arg t).1.audit_logs) same
                        ∙ ap (λ (t : AdminTables). t.audit_logs)
                            (create_audit_log-logs env.admin arg w.tables works known)),
                ),
                λ broken.
                    rw (named, done)
                      (ap (λ t. (Admin.create_audit_log env.admin arg t).1) same
                        ∙ create_audit_log-failed env.admin arg w.tables broken),
              )
        ]
      ]
