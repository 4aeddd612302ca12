-- ===== src/Examples/Auth.antt =====
-- Logins, sessions and tokens of internal/auth, with a Redis server in memory and codecs without secrecy.
use cyandie_backend.Common.{
  String, true, false, none, some, List, [], ◌∷◌, ◌≡◌, ◌≢◌, ◌↔◌, refl, arith,
}
use cyandie_backend.Core.Errors.{ok, fail, err_session_revoked}
use cyandie_backend.Db.Users.{User, Credential, Accounts, AccountEnv}
use cyandie_backend.Uuid.Unary.{unary_codec}
use cyandie_backend.Auth.External.{Session, Claims}
use cyandie_backend.Auth.Memory.{
  memory_client, plain_crypto, lookup, marshal_session, unmarshal_session, write, read,
  write_claims,
}
use cyandie_backend.Auth.Sessions.{create, get}
use cyandie_backend.Auth.Tokens.{JwtKey, sign, generate_access_token}
use cyandie_backend.Auth.Service.{TokenPair, Moment, generate_token_pair, login, refresh_token}
use cyandie_backend.Auth.Service.Refresh.{HasNoRefreshKeys, refresh_token-generate_token_pair}
use cyandie_backend.Auth.Service.Login.{IsAdmitted, login-eq-ok}
use cyandie_backend.Auth.Guard.{
  answers, serves, auth_guard, require_admin, split_space, is_bearer, equal_fold,
}
use cyandie_backend.Auth.Guard.Access.{
  auth_guard-generate_token_pair, require_admin-auth_guard, user_context,
}

abbrev pub key : JwtKey
key = record { kid = "k1"; secret = "s1" }

abbrev pub newer : JwtKey
newer = record { kid = "k2"; secret = "s2" }

abbrev pub moment : Moment
moment = record { now = 1; token_nanos = "10"; session_nanos = "11"; random = "ab" }

abbrev later : Moment
later = record { now = 2; token_nanos = "20"; session_nanos = "21"; random = "cd" }

abbrev claims : Claims
claims = record {
  user_id = "i";
  session_id = "sess_10";
  role = "user";
  expires_at = 2;
  issued_at = 1;
}

abbrev pub store : List (String × String)
store = []

abbrev old : Session
old = record { id = "sess_1"; user_id = "i"; refresh_token_hash = "h"; created_at = 0 }

abbrev kept : List (String × String)
kept = ("session:sess_1", marshal_session old) ∷ []

got : get memory_client plain_crypto "sess_1" kept ≡ ok old
unfolding get lookup marshal_session unmarshal_session write read
got = refl

abbrev pub pair : TokenPair
pair = record {
  access_token = write_claims (record claims { expires_at = 901 });
  refresh_token = "ref_ab";
}

made : (generate_token_pair memory_client plain_crypto (key ∷ []) moment "i" store).0 ≡ ok pair
unfolding generate_token_pair generate_access_token sign create
made = refl

none_kept : HasNoRefreshKeys memory_client plain_crypto (key ∷ []) store
unfolding get lookup
none_kept random = refl

refresh_token-generate_token_pair_example :
    (refresh_token memory_client plain_crypto
        (key ∷ [])
        later
        "ref_ab"
        (generate_token_pair memory_client plain_crypto (key ∷ []) moment "i" store).1
      ≡ (
        fail err_session_revoked "invalid or expired refresh token",
        (generate_token_pair memory_client plain_crypto (key ∷ []) moment "i" store).1,
      ))
    × HasNoRefreshKeys memory_client plain_crypto
        (key ∷ [])
        (generate_token_pair memory_client plain_crypto (key ∷ []) moment "i" store).1
refresh_token-generate_token_pair_example =
    refresh_token-generate_token_pair memory_client plain_crypto (key ∷ []) moment later "i" store
      pair tt none_kept made

signed : sign plain_crypto (key ∷ []) claims ≡ ok (write_claims claims)
unfolding sign
signed = refl

abbrev in_front : String → String
in_front token = String.◌∷◌ "b" (
    String.◌∷◌ "E"
      (String.◌∷◌ "a" (String.◌∷◌ "r" (String.◌∷◌ "e" (String.◌∷◌ "r" (String.◌∷◌ " " token))))))

abbrev header : String
header = in_front pair.access_token

parts : split_space header ≡ some ("bEarer", pair.access_token)
unfolding split_space
parts = refl

any_case : is_bearer "bEarer" ≡ true
unfolding equal_fold
any_case = refl

auth_guard-generate_token_pair_example :
    (auth_guard plain_crypto (newer ∷ key ∷ []) 900 header ≡ serves (user_context moment "i"))
    × (require_admin (auth_guard plain_crypto (newer ∷ key ∷ []) 900 header)
        ≡ answers "{\"error\":\"forbidden\"}" 403)
auth_guard-generate_token_pair_example =
    auth_guard-generate_token_pair memory_client plain_crypto (newer ∷ []) key [] moment "i" store
      pair 900 header "bEarer" made (omega arith) parts any_case

require_admin-auth_guard_example :
    require_admin (auth_guard plain_crypto (newer ∷ key ∷ []) 5 header)
    ≢ serves (record { user_id = "i"; session_id = "sess_10"; role = "admin" })
require_admin-auth_guard_example =
    require_admin-auth_guard memory_client plain_crypto (key ∷ []) (newer ∷ key ∷ []) moment "i"
      store pair 5 header "bEarer"
      (record { user_id = "i"; session_id = "sess_10"; role = "admin" }) made parts

abbrev user : User
user = record {
  id = 0;
  username = "eve";
  email = none;
  display_name = none;
  avatar_url = none;
  status = "active";
}

abbrev cred : Credential
cred = record {
  user_id = 0;
  type = "password";
  identifier = "eve";
  secret_hash = some "pw";
  verified = true;
}

abbrev pub accounts : Accounts
accounts = record { users = user ∷ []; credentials = cred ∷ [] }

abbrev pub env : AccountEnv
env = record { fails = λ q. false; new_id = 1 }

login-eq-ok_example :
    ((login memory_client plain_crypto
        (key ∷ [])
        unary_codec
        env
        moment
        accounts
        "eve"
        "pw"
        store).0
      ≡ ok pair)
    ↔ ((who : User) × IsAdmitted plain_crypto env accounts "eve" "pw" who
        × ((generate_token_pair memory_client plain_crypto
              (key ∷ [])
              moment
              (unary_codec.format who.id)
              store).0
            ≡ ok pair))
login-eq-ok_example =
    login-eq-ok memory_client plain_crypto (key ∷ []) unary_codec env moment accounts "eve" "pw"
      store pair
