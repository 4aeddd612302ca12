-- ===== src/Db/Users.antt =====
-- internal/db/users.sql.go, credentials.sql.go and `CountUserCredentials` of platform_bindings.sql.go, over
-- the tables `users` and `credentials` with the keys that migrations/ declares.
pub mod Updates
use cyandie_backend.Common.{
  ℕ, String, Bool, false, not, ◌&&◌, ◌||◌, Option, none, some, List, [], ◌∷◌, ◌++◌, map,
  if◌then◌else◌, ◌==◌, str_eq, find, any, keep, length, take, drop,
}
use cyandie_backend.Common.Int.{ℤ, pos_part, is_negative}
use cyandie_backend.Db.Rows.{DbResult, row, failed, first_row}

-- The columns of `users` that the services read or write.
pub record User : Type 0 where
  pub id : ℕ
  pub username : String
  pub email : Option String
  pub display_name : Option String
  pub avatar_url : Option String
  pub status : String

pub record Credential : Type 0 where
  pub user_id : ℕ
  pub type : String
  pub identifier : String
  pub secret_hash : Option String
  pub verified : Bool

pub record Accounts : Type 0 where
  pub users : List User
  pub credentials : List Credential

pub data AccountQuery : Type 0 where
  create_user_q get_user_by_id_q create_credential_q get_credential_q count_user_credentials_q
        update_user_status_q :
      AccountQuery
  update_user_profile_q search_users_q : AccountQuery

-- Which statements break, and the next generated key of `users`.
pub record AccountEnv : Type 0 where
  pub fails : AccountQuery → Bool
  pub new_id : ℕ

abbrev pub is_taken : Option String → Option String → Bool
is_taken none b = false
is_taken (some a) none = false
is_taken (some a) (some b) = str_eq a b

-- UNIQUE(username), UNIQUE(email), where NULL equals nothing.
abbrev pub clashes : String → Option String → User → Bool
clashes username email u = str_eq u.username username || is_taken u.email email

-- UNIQUE(type, identifier)
abbrev pub is_credential : String → String → Credential → Bool
is_credential type identifier c = str_eq c.type type && str_eq c.identifier identifier

-- ILIKE and the order of texts, which the database decides.
pub record Collation : Type 0 where
  pub ilike : String → String → Bool
  pub is_before : String → String → Bool

-- The first argument unless it is NULL.
abbrev pub coalesce : Option String → Option String → Option String
coalesce none old = old
coalesce (some new) old = some new

insert_user : Collation → User → List User → List User
insert_user c u [] = u ∷ []
insert_user c u (v ∷ vs) =
    let rest = insert_user c u vs in
    if c.is_before v.username u.username then v ∷ rest else u ∷ v ∷ vs

-- `ORDER BY username`
unfoldable pub order_by_username : Collation → List User → List User
unfolding insert_user
order_by_username c [] = []
order_by_username c (u ∷ us) = insert_user c u (order_by_username c us)

abbrev pub ilike_name : Collation → String → Option String → Bool
ilike_name c query none = false
ilike_name c query (some name) = c.ilike name query

abbrev pub is_match : Collation → String → User → Bool
is_match c query u =
    (c.ilike u.username query || ilike_name c query u.display_name) && str_eq u.status "active"

module _ (env : AccountEnv) where
  unfoldable pub create_user :
      String → Option String → Option String → Accounts → DbResult User × Accounts
  create_user username email display_name t =
      if env.fails create_user_q || any (clashes username email) t.users
      then (failed, t)
      else (let u : User = record {
        id = env.new_id;
        username = username;
        email = email;
        display_name = display_name;
        avatar_url = none;
        status = "active";
      } in
          (row u, record t { users = t.users ++ u ∷ [] }))

  unfoldable pub get_user_by_id : ℕ → Accounts → DbResult User
  get_user_by_id id t =
      if env.fails get_user_by_id_q then failed else first_row (find (λ u. u.id == id) t.users)

  unfoldable pub create_credential : Credential → Accounts → DbResult Credential × Accounts
  create_credential c t =
      if env.fails create_credential_q
        || not (any (λ u. u.id == c.user_id) t.users)
        || any (is_credential c.type c.identifier) t.credentials
      then (failed, t)
      else (row c, record t { credentials = t.credentials ++ c ∷ [] })

  unfoldable pub get_credential_by_type_identifier :
      String → String → Accounts → DbResult Credential
  get_credential_by_type_identifier type identifier t =
      if env.fails get_credential_q
      then failed
      else first_row (find (is_credential type identifier) t.credentials)

  unfoldable pub count_user_credentials : ℕ → Accounts → DbResult ℕ
  count_user_credentials id t =
      if env.fails count_user_credentials_q
      then failed
      else row (length (keep (λ c. c.user_id == id) t.credentials))

  unfoldable pub update_user_status : String → ℕ → Accounts → DbResult User × Accounts
  update_user_status status id t =
      if env.fails update_user_status_q
      then (failed, t)
      else (let users = map (λ u. if u.id == id then record u { status = status } else u) t.users in
          (first_row (find (λ u. u.id == id) users), record t { users = users }))

  unfoldable pub update_user_profile :
      Option String → Option String → ℕ → Accounts → DbResult User × Accounts
  update_user_profile display_name avatar_url id t =
      if env.fails update_user_profile_q
      then (failed, t)
      else (let users =
            map
              (λ u.
                if u.id == id
                then record u {
                  display_name = coalesce display_name u.display_name;
                  avatar_url = coalesce avatar_url u.avatar_url;
                }
                else u)
              t.users in
          (first_row (find (λ u. u.id == id) users), record t { users = users }))

  unfoldable pub search_users : Collation → String → ℤ → ℤ → Accounts → DbResult (List User)
  search_users c query limit offset t =
      if env.fails search_users_q || (is_negative limit || is_negative offset)
      then failed
      else row (
          take (pos_part limit)
            (drop (pos_part offset) (order_by_username c (keep (is_match c query) t.users))))
