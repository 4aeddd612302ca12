-- ===== src/Users/Profiles.antt =====
-- `UpdateProfile` of internal/users/service.go, as `GetUser` sees it afterwards.
use cyandie_backend.Common.{
  ℕ, String, Option, none, some, false, find, ◌==◌, ◌≡◌, refl, sym, ap, ◌∙◌, arith, Bool-cases,
  Option-cases, inl, inr,
}
use cyandie_backend.Core.Errors.{ok}
use cyandie_backend.Db.Rows.{DbResult-cases, row}
use cyandie_backend.Db.Users.{
  Accounts, AccountEnv, get_user_by_id_q, get_user_by_id, update_user_profile, coalesce,
}
use cyandie_backend.Db.Users
use cyandie_backend.Db.Users.Updates.{get_user_by_id-update_user_profile}
use cyandie_backend.Uuid.{UuidCodec}
use cyandie_backend.Users.{User, UpdateProfileRequest, string_of, to_user, get_user, update_profile}

-- A given text replaces the old one.
abbrev pub given_or : Option String → String → String
given_or none old = old
given_or (some new) old = new

string_of-coalesce : (a b : Option String) → string_of (coalesce a b) ≡ given_or a (string_of b)
string_of-coalesce none b = refl
string_of-coalesce (some s) b = refl

get_user_by_id-found :
    (env : AccountEnv) (id : ℕ) (t : Accounts) (v : Users.User)
    → get_user_by_id env id t ≡ row v
    → (env.fails get_user_by_id_q ≡ false) × (find (λ u. u.id == id) t.users ≡ some v)
unfolding get_user_by_id
get_user_by_id-found env id t v h = elim (Bool-cases (env.fails get_user_by_id_q)) [
  | inl broken ↦ ground (arith, broken, h)
  | inr works ↦ elim (Option-cases (find (λ u. u.id == id) t.users)) [
    | inl absent ↦ ground (arith, works, absent, h)
    | inr (u, found) ↦ (works, found ∙ ap some (ground (arith, works, found, h)))
  ]
]

module _ (u : UuidCodec) where
  -- After `UpdateProfile` returns without an error, `GetUser` gives what it gave before, with the fields that
  -- the request had set to what it had.
  pub get_user-update_profile :
      (env later : AccountEnv) (id : String) (req : UpdateProfileRequest) (t : Accounts) (v : User)
      → (get_user u later id t).0 ≡ ok v
      → (update_profile u env id req t).0 ≡ ok tt
      → (get_user u later id (update_profile u env id req t).1).0
        ≡ ok (record v {
          display_name = given_or req.display_name v.display_name;
          avatar_url = given_or req.avatar_url v.avatar_url;
        })
  unfolding get_user update_profile
  get_user-update_profile env later id req t v before done = elim (Option-cases (u.parse id)) [
    | inl bad ↦ ground (arith, bad, before)
    | inr (uid, parsed) ↦ elim (DbResult-cases (get_user_by_id later uid t)) [
      | inr (inl missing) ↦ ground (arith, parsed, missing, before)
      | inr (inr broken) ↦ ground (arith, parsed, broken, before)
      | inl (x, known) ↦
          elim (DbResult-cases (update_user_profile env req.display_name req.avatar_url uid t).0) [
            | inr (inl missing) ↦ ground (arith, parsed, missing, done)
            | inr (inr broken) ↦ ground (arith, parsed, broken, done)
            | inl (y, changed) ↦
                let (works, found) = get_user_by_id-found later uid t x known in
                let shown : to_user u x ≡ v = ground (arith, parsed, known, before) in
                let after =
                  get_user_by_id-update_user_profile env later req.display_name req.avatar_url uid t
                    y x works found changed in
                rw
                  (
                    parsed,
                    changed,
                    after,
                    sym shown,
                    string_of-coalesce req.display_name x.display_name,
                    string_of-coalesce req.avatar_url x.avatar_url,
                  )
                  refl
          ]
    ]
  ]
