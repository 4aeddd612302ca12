-- ===== src/Admin/Bans.antt =====
-- `UpdateUserStatus` of internal/admin/service.go, as `Login` of internal/auth/service.go and `ListUsers` see
-- it afterwards.
use cyandie_backend.Common.{
  ℕ, String, true, false, ◌||◌, some, List, ◌≡◌, ◌≢◌, refl, sym, ap, ◌∙◌, arith, any, ◌==◌, str_eq,
  Bool-cases, Option-cases, false≢true, inl, inr,
}
use cyandie_backend.Common.Int.{ℤ}
use cyandie_backend.Core.Errors.{ok}
use cyandie_backend.Db.Rows.{DbResult-cases, row}
use cyandie_backend.Db.Users.{
  User, Credential, Accounts, AccountEnv, Collation, get_user_by_id_q, get_user_by_id,
  get_credential_by_type_identifier, search_users,
}
use cyandie_backend.Db.Users
use cyandie_backend.Db.Users.Updates.{
  get_user_by_id-update_user_status, search_users-update_user_status,
}
use cyandie_backend.Uuid.{UuidCodec}
use cyandie_backend.Auth.External.{RedisClient, Crypto}
use cyandie_backend.Auth.Tokens.{JwtKey}
use cyandie_backend.Auth.Service.{Moment, TokenPair}
use cyandie_backend.Auth.Service
use cyandie_backend.Auth.Service.Login.{login-eq-ok}
use cyandie_backend.Admin.{AdminWorld, AdminEnv, update_user_status, list_users}

get_user_by_id-answers :
    (env : AccountEnv) (id : ℕ) (t : Accounts) (v : User)
    → get_user_by_id env id t ≡ row v
    → env.fails get_user_by_id_q ≡ false
unfolding get_user_by_id
get_user_by_id-answers env id t v h = elim (Bool-cases (env.fails get_user_by_id_q)) [
  | inl broken ↦ ground (arith, broken, h)
  | inr works ↦ works
]

module _ (u : UuidCodec) (env : AdminEnv) where
  -- A change of status that succeeds names one of the three states and a user, and changes the row of the user.
  pub update_user_status-ok :
      (user_id status : String) (w : AdminWorld) (v : User)
      → (update_user_status u env user_id status w).0 ≡ ok v
      → (id : ℕ) × (u.parse user_id ≡ some id)
        × ((str_eq status "active" || (str_eq status "banned" || str_eq status "deleted")) ≡ true)
        × ((Users.update_user_status env.account status id w.accounts).0 ≡ row v)
        × ((update_user_status u env user_id status w).1
            ≡ record w { accounts = (Users.update_user_status env.account status id w.accounts).1 })
  unfolding update_user_status
  update_user_status-ok user_id status w v h =
      elim (Bool-cases
        (str_eq status "active" || (str_eq status "banned" || str_eq status "deleted"))) [
          | inr unknown ↦ ground (arith, unknown, h)
          | inl known ↦ elim (Option-cases (u.parse user_id)) [
            | inl bad ↦ ground (arith, known, bad, h)
            | inr (id, parsed) ↦
                elim (DbResult-cases
                  (Users.update_user_status env.account status id w.accounts).0) [
                    | inl (v', done) ↦ (
                      id,
                      parsed,
                      known,
                      done ∙ ap row (ground (arith, known, parsed, done, h)),
                      rw (known, parsed) refl,
                    )
                    | inr (inl missing) ↦ ground (arith, known, parsed, missing, h)
                    | inr (inr broken) ↦ ground (arith, known, parsed, broken, h)
                  ]
          ]
        ]

  -- After the status of a user is changed to another one than "active", nobody logs in with a credential of
  -- that user, whatever the password.
  pub login-update_user_status :
      (x : RedisClient) (c : Crypto) (keys : List JwtKey) (later : AccountEnv) (m : Moment)
      (user_id status username password : String) (w : AdminWorld) (v : User) (s : x.Store)
      (pair : TokenPair) (id : ℕ) (cred : Credential)
      → (update_user_status u env user_id status w).0 ≡ ok v
      → str_eq status "active" ≡ false
      → u.parse user_id ≡ some id
      → let w' = (update_user_status u env user_id status w).1 in
        get_credential_by_type_identifier later "password" username w'.accounts ≡ row cred
        → cred.user_id ≡ id
        → (Service.login x c keys u later m w'.accounts username password s).0 ≢ ok pair
  login-update_user_status x c keys later m user_id status username password w v s pair id cred h
        inactive named found own entered =
      let w' = (update_user_status u env user_id status w).1 in
      let (k, parsed, known, done, state) = update_user_status-ok user_id status w v h in
      let (user, admitted, made) =
        (login-eq-ok x c keys u later m w'.accounts username password s pair).0 entered in
      let same : k ≡ id = ground (arith, parsed, named) in
      let accounts = ap (λ (z : AdminWorld). z.accounts) state in
      let (row_after, kept) =
        get_user_by_id-update_user_status env.account later status k w.accounts v
          (get_user_by_id-answers later admitted.cred.user_id w'.accounts user admitted.is_user)
          done in
      let owner : admitted.cred.user_id ≡ k = ground (arith, admitted.is_found, found, own, same) in
      let reached : get_user_by_id later k w'.accounts ≡ row v =
        ap (get_user_by_id later k) accounts ∙ row_after in
      let is_v : user ≡ v = ground (arith, admitted.is_user, owner, reached) in
      let active : str_eq status "active" ≡ true =
        sym (ap (λ t. str_eq t "active") (ap (λ (z : User). z.status) is_v ∙ kept))
        ∙ admitted.is_active in
      false≢true (sym inactive ∙ active)

  -- After the status of a user is changed to another one than "active", no page of `ListUsers` has the user.
  pub list_users-update_user_status :
      (later : AdminEnv) (order : Collation) (user_id status : String) (limit offset : ℤ)
      (w : AdminWorld) (v : User) (us : List User) (id : ℕ)
      → (update_user_status u env user_id status w).0 ≡ ok v
      → str_eq status "active" ≡ false
      → u.parse user_id ≡ some id
      → (list_users u later order limit offset (update_user_status u env user_id status w).1).0
        ≡ ok us
      → any (λ x. x.id == id) us ≡ false
  unfolding list_users
  list_users-update_user_status later order user_id status limit offset w v us id h inactive named
        listed =
      let w' = (update_user_status u env user_id status w).1 in
      let (k, parsed, known, done, state) = update_user_status-ok user_id status w v h in
      let same : k ≡ id = ground (arith, parsed, named) in
      let accounts = ap (λ (z : AdminWorld). z.accounts) state in
      let page : search_users later.account order "%" limit offset w'.accounts ≡ row us =
        elim (DbResult-cases (search_users later.account order "%" limit offset w'.accounts)) [
          | inl (xs, found) ↦ found ∙ ap row (ground (arith, found, listed))
          | inr (inl missing) ↦ ground (arith, missing, listed)
          | inr (inr broken) ↦ ground (arith, broken, listed)
        ] in
      ap (λ n. any (λ z. z.id == n) us) (sym same)
      ∙ search_users-update_user_status env.account later.account order "%" status limit offset k
          w.accounts v us inactive done
          (ap (search_users later.account order "%" limit offset) (sym accounts) ∙ page)
