-- ===== src/Examples/Admin.antt =====
-- An administrator who bans a user, over small tables, with codecs in memory.
use cyandie_backend.Common.{
  String, true, false, none, some, [], ◌∷◌, ◌++◌, ◌≡◌, ◌≢◌, refl, arith, any, ◌==◌,
}
use cyandie_backend.Common.Int.{pos}
use cyandie_backend.Core.Errors.{ok}
use cyandie_backend.Core.Http.{sends}
use cyandie_backend.Db.Rows.{row}
use cyandie_backend.Db.Users.{
  User, Credential, Accounts, AccountEnv, Collation, get_credential_by_type_identifier,
  search_users, order_by_username,
}
use cyandie_backend.Db.Users
use cyandie_backend.Db.Admin.{
  AdminUser, AuditLog, create_audit_log_q, is_operator, get_admin_by_username,
}
use cyandie_backend.Uuid.Unary.{unary_codec}
use cyandie_backend.Auth.Memory.{memory_client, plain_crypto, write_claims}
use cyandie_backend.Auth.Tokens.{JwtKey, sign, generate_access_token}
use cyandie_backend.Auth.Service.{Moment, TokenPair, generate_token}
use cyandie_backend.Auth.Service
use cyandie_backend.Auth.Guard.{
  serves, split_space, is_bearer, auth_guard, require_admin, equal_fold,
}
use cyandie_backend.Admin.{
  AdminWorld, AdminEnv, AdminLoginResponse, login, update_user_status, list_users, null_uuid,
}
use cyandie_backend.Admin.Handlers
use cyandie_backend.Admin.Bans.{login-update_user_status, list_users-update_user_status}
use cyandie_backend.Admin.Entry.{IsAdmin, admin_context, require_admin-login}
use cyandie_backend.Admin.Audit.{IsStatusLog, update_user_status-audit_logs}

abbrev eve : User
eve = record {
  id = 0;
  username = "eve";
  email = none;
  display_name = none;
  avatar_url = none;
  status = "active";
}

abbrev eve_password : Credential
eve_password = record {
  user_id = 0;
  type = "password";
  identifier = "eve";
  secret_hash = some "pw";
  verified = true;
}

abbrev root : AdminUser
root = record {
  id = 2;
  username = "root";
  password_hash = "secret";
  role = "admin";
  status = "active";
  created_at = 1;
  updated_at = 1;
}

abbrev admin_world : AdminWorld
admin_world = record {
  accounts = record { users = eve ∷ []; credentials = eve_password ∷ [] };
  tables = record { admins = root ∷ []; audit_logs = [] };
}

abbrev account_env : AccountEnv
account_env = record { fails = λ q. false; new_id = 5 }

abbrev admin_env : AdminEnv
admin_env = record {
  account = account_env;
  admin = record { fails = λ q. false; new_id = 6; now = 50 };
}

abbrev banned : User
banned = record eve { status = "banned" }

abbrev any_moment : Moment
any_moment = record { now = 5; token_nanos = "1"; session_nanos = "2"; random = "3" }

abbrev any_pair : TokenPair
any_pair = record { access_token = "a"; refresh_token = "r" }

ban : (update_user_status unary_codec admin_env "i" "banned" admin_world).0 ≡ ok banned
unfolding update_user_status Users.update_user_status
ban = refl

eve_found :
    get_credential_by_type_identifier account_env "password" "eve"
      (update_user_status unary_codec admin_env "i" "banned" admin_world).1.accounts
    ≡ row eve_password
unfolding update_user_status Users.update_user_status get_credential_by_type_identifier
eve_found = refl

login-update_user_status_example :
    (Service.login memory_client plain_crypto [] unary_codec account_env any_moment
      (update_user_status unary_codec admin_env "i" "banned" admin_world).1.accounts
      "eve"
      "pw"
      []).0
    ≢ ok any_pair
login-update_user_status_example =
    login-update_user_status unary_codec admin_env memory_client plain_crypto [] account_env
      any_moment "i" "banned" "eve" "pw" admin_world banned [] any_pair 0 eve_password ban refl refl
      eve_found refl

abbrev any_order : Collation
any_order = record { ilike = λ text pattern. true; is_before = λ a b. false }

nobody_listed :
    (list_users unary_codec admin_env any_order
      (pos 20)
      (pos 0)
      (update_user_status unary_codec admin_env "i" "banned" admin_world).1).0
    ≡ ok []
unfolding list_users update_user_status Users.update_user_status search_users order_by_username
nobody_listed = refl

list_users-update_user_status_example : any (λ (x : User). x.id == 0) [] ≡ false
list_users-update_user_status_example =
    list_users-update_user_status unary_codec admin_env admin_env any_order "i" "banned" (pos 20)
      (pos 0) admin_world banned [] 0 ban refl refl nobody_listed

answered :
    (Handlers.update_user_status unary_codec admin_env "req" "iii" "addr" "i"
      (some "banned")
      admin_world).0
    ≡ sends 200 banned
unfolding Handlers.update_user_status update_user_status Users.update_user_status
answered = refl

update_user_status-audit_logs_example :
    let w' =
      (Handlers.update_user_status unary_codec admin_env "req" "iii" "addr" "i"
        (some "banned")
        admin_world).1 in
    (admin_env.admin.fails create_audit_log_q ≡ false
      → is_operator admin_world.tables.admins (null_uuid (unary_codec.parse "iii")) ≡ true
      → (l : AuditLog) × IsStatusLog unary_codec "iii" "banned" "i" l
        × (w'.tables.audit_logs ≡ ([] ++ l ∷ [])))
    × (admin_env.admin.fails create_audit_log_q ≡ true → w'.tables ≡ admin_world.tables)
update_user_status-audit_logs_example =
    update_user_status-audit_logs unary_codec admin_env "req" "iii" "addr" "i" "banned" admin_world
      banned answered

abbrev admin_key : JwtKey
admin_key = record { kid = "k"; secret = "s" }

abbrev entry : AdminLoginResponse
entry = record {
  id = "iii";
  username = "root";
  role = "admin";
  access_token = write_claims (record {
    user_id = "iii";
    session_id = "";
    role = "admin";
    expires_at = 905;
    issued_at = 5;
  });
}

let_in :
    (login plain_crypto (admin_key ∷ []) unary_codec admin_env 5 "root" "secret" admin_world).0
    ≡ ok entry
unfolding login generate_token generate_access_token sign get_admin_by_username
let_in = refl

abbrev in_front : String → String
in_front token = String.◌∷◌ "b" (
    String.◌∷◌ "e"
      (String.◌∷◌ "a" (String.◌∷◌ "r" (String.◌∷◌ "e" (String.◌∷◌ "r" (String.◌∷◌ " " token))))))

parts : split_space (in_front entry.access_token) ≡ some ("bearer", entry.access_token)
unfolding split_space
parts = refl

any_case : is_bearer "bearer" ≡ true
unfolding equal_fold
any_case = refl

require_admin-login_example :
    IsAdmin plain_crypto unary_codec admin_env admin_world "root" "secret" entry
    × (auth_guard plain_crypto (admin_key ∷ []) 900 (in_front entry.access_token)
        ≡ serves (admin_context entry))
    × (require_admin (auth_guard plain_crypto (admin_key ∷ []) 900 (in_front entry.access_token))
        ≡ serves (admin_context entry))
require_admin-login_example =
    require_admin-login plain_crypto unary_codec admin_env [] admin_key [] 5 900 "root" "secret"
      admin_world entry (in_front entry.access_token) "bearer" let_in (omega arith) parts any_case
