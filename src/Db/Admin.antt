-- ===== src/Db/Admin.antt =====
-- internal/db/admin.sql.go over the tables `admin_users` and `audit_logs`, with the keys that migrations/
-- declares.
use cyandie_backend.Common.{
  ℕ, String, Bool, true, not, ◌||◌, Option, none, some, List, [], ◌∷◌, ◌++◌, if◌then◌else◌, ◌==◌,
  str_eq, find, any, take, drop,
}
use cyandie_backend.Common.Int.{ℤ, pos_part, is_negative}
use cyandie_backend.Db.Rows.{DbResult, row, failed, first_row, order_desc}

pub record AdminUser : Type 0 where
  pub id : ℕ
  pub username : String
  pub password_hash : String
  pub role : String
  pub status : String
  pub created_at : ℕ
  pub updated_at : ℕ

pub record AuditLog : Type 0 where
  pub id : ℕ
  pub operator_id : Option ℕ
  pub action : String
  pub target_type : String
  pub target_id : String
  pub before_value : Option String
  pub after_value : Option String
  pub reason : Option String
  pub ip : Option String
  pub created_at : ℕ

pub record CreateAuditLogParams : Type 0 where
  pub operator_id : Option ℕ
  pub action : String
  pub target_type : String
  pub target_id : String
  pub before_value : Option String
  pub after_value : Option String
  pub reason : Option String
  pub ip : Option String

pub record AdminTables : Type 0 where
  pub admins : List AdminUser
  pub audit_logs : List AuditLog

pub data AdminQuery : Type 0 where
  create_admin_user_q create_audit_log_q get_admin_by_username_q list_audit_logs_q : AdminQuery

-- Which statements break, the next key and the clock.
pub record AdminDb : Type 0 where
  pub fails : AdminQuery → Bool
  pub new_id : ℕ
  pub now : ℕ

-- The operator is NULL or an administrator.
abbrev pub is_operator : List AdminUser → Option ℕ → Bool
is_operator admins none = true
is_operator admins (some id) = any (λ a. a.id == id) admins

abbrev pub new_audit_log : AdminDb → CreateAuditLogParams → AuditLog
new_audit_log env arg = record {
  id = env.new_id;
  operator_id = arg.operator_id;
  action = arg.action;
  target_type = arg.target_type;
  target_id = arg.target_id;
  before_value = arg.before_value;
  after_value = arg.after_value;
  reason = arg.reason;
  ip = arg.ip;
  created_at = env.now;
}

module _ (env : AdminDb) where
  unfoldable pub create_admin_user :
      String → String → String → AdminTables → DbResult AdminUser × AdminTables
  create_admin_user username password_hash role t =
      if env.fails create_admin_user_q || any (λ a. str_eq a.username username) t.admins
      then (failed, t)
      else (let a : AdminUser = record {
        id = env.new_id;
        username = username;
        password_hash = password_hash;
        role = role;
        status = "active";
        created_at = env.now;
        updated_at = env.now;
      } in
          (row a, record t { admins = t.admins ++ a ∷ [] }))

  unfoldable pub create_audit_log :
      CreateAuditLogParams → AdminTables → DbResult AuditLog × AdminTables
  create_audit_log arg t =
      if env.fails create_audit_log_q || not (is_operator t.admins arg.operator_id)
      then (failed, t)
      else (
        row (new_audit_log env arg),
        record t { audit_logs = t.audit_logs ++ new_audit_log env arg ∷ [] },
      )

  unfoldable pub get_admin_by_username : String → AdminTables → DbResult AdminUser
  get_admin_by_username username t =
      if env.fails get_admin_by_username_q
      then failed
      else first_row (find (λ a. str_eq a.username username) t.admins)

  unfoldable pub list_audit_logs : ℤ → ℤ → AdminTables → DbResult (List AuditLog)
  list_audit_logs limit offset t =
      if env.fails list_audit_logs_q || (is_negative limit || is_negative offset)
      then failed
      else row (
          take (pos_part limit)
            (drop (pos_part offset) (order_desc (λ l. l.created_at) t.audit_logs)))
