-- ===== src/Admin/Entry.antt =====
-- `Login` of internal/admin/service.go behind `AuthGuard` and `RequireAdmin` of internal/auth/middleware.go, as
-- internal/admin/module.go mounts them.
use cyandie_backend.Common.{
  ℕ, ◌+◌, ◌*◌, ◌<◌, String, true, ◌||◌, some, List, ◌∷◌, ◌++◌, ◌≡◌, refl, ap, subst, sym, arith,
  if◌then◌else◌, str_eq, Bool-cases, inl, inr,
}
use cyandie_backend.Core.Errors.{Result-cases, ok}
use cyandie_backend.Db.Rows.{DbResult-cases, row}
use cyandie_backend.Db.Admin.{AdminUser, get_admin_by_username}
use cyandie_backend.Uuid.{UuidCodec}
use cyandie_backend.Auth.External.{Crypto}
use cyandie_backend.Auth.Tokens.{JwtKey, generate_access_token}
use cyandie_backend.Auth.Tokens.Rotation.{verify-sign}
use cyandie_backend.Auth.Service.{generate_token, validate_token}
use cyandie_backend.Auth.Guard.{
  Context, answers, serves, split_space, is_bearer, auth_guard, require_admin,
}
use cyandie_backend.Auth.Guard.Access.{split_space-nonempty}
use cyandie_backend.Admin.{AdminWorld, AdminEnv, AdminLoginResponse, login}

-- The name is an active administrator's whose hash the password matches, and the response is theirs.
pub record IsAdmin (c : Crypto) (u : UuidCodec) (env : AdminEnv) (w : AdminWorld)
    (username password : String) (r : AdminLoginResponse) : Type 0 where
  pub admin : AdminUser
  pub found : get_admin_by_username env.admin username w.tables ≡ row admin
  pub active : str_eq admin.status "active" ≡ true
  pub matched : c.matches_password admin.password_hash password ≡ true
  pub same_id : r.id ≡ u.format admin.id
  pub same_role : r.role ≡ admin.role

abbrev pub admin_context : AdminLoginResponse → Context
admin_context r = record { user_id = r.id; session_id = ""; role = r.role }

module _ (c : Crypto) (u : UuidCodec) (env : AdminEnv) where
  login-ok :
      (keys : List JwtKey) (now : ℕ) (username password : String) (w : AdminWorld)
      (r : AdminLoginResponse)
      → (login c keys u env now username password w).0 ≡ ok r
      → IsAdmin c u env w username password r
        × (generate_access_token c keys now r.id "" r.role ≡ ok r.access_token)
  unfolding login generate_token
  login-ok keys now username password w r h =
      elim (Bool-cases (str_eq username "" || str_eq password "")) [
        | inl empty ↦ ground (arith, empty, h)
        | inr full ↦ elim (DbResult-cases (get_admin_by_username env.admin username w.tables)) [
          | inr (inl missing) ↦ ground (arith, full, missing, h)
          | inr (inr broken) ↦ ground (arith, full, broken, h)
          | inl (a, found) ↦
              elim (Result-cases (generate_access_token c keys now (u.format a.id) "" a.role)) [
                | inr (inl (e, failed)) ↦ ground (arith, full, found, failed, h)
                | inr (inr failed) ↦ ground (arith, full, found, failed, h)
                | inl (token, signed) ↦
                    let active : str_eq a.status "active" ≡ true = ground (arith, full, found, h) in
                    let matched : c.matches_password a.password_hash password ≡ true =
                      ground (arith, full, found, active, h) in
                    let response : record {
                      id = u.format a.id;
                      username = a.username;
                      role = a.role;
                      access_token = token;
                    }
                        ≡ r =
                      ground (arith, full, found, active, matched, signed, h) in
                    (
                      record {
                        admin = a;
                        found = found;
                        active = active;
                        matched = matched;
                        same_id = sym (ap (λ z. z.id) response);
                        same_role = sym (ap (λ z. z.role) response);
                      },
                      subst
                          (λ (z : AdminLoginResponse).
                            generate_access_token c keys now z.id "" z.role ≡ ok z.access_token)
                          response signed,
                    )
              ]
        ]
      ]

  -- Whoever logs in as an administrator is an active one with the right password; for fifteen minutes the
  -- token passes `AuthGuard` behind a "bearer" of any case, and `RequireAdmin` lets it through just in case of
  -- the role "admin", answering 403 to every other role.
  pub require_admin-login :
      (new : List JwtKey) (key : JwtKey) (old : List JwtKey) (now later : ℕ)
      (username password : String) (w : AdminWorld) (r : AdminLoginResponse)
      (header scheme : String)
      → (login c (key ∷ old) u env now username password w).0 ≡ ok r
      → later < now + 15 * 60
      → split_space header ≡ some (scheme, r.access_token)
      → is_bearer scheme ≡ true
      → IsAdmin c u env w username password r
        × (auth_guard c (new ++ key ∷ old) later header ≡ serves (admin_context r))
        × (require_admin (auth_guard c (new ++ key ∷ old) later header) ≡ (
            if str_eq r.role "admin"
            then serves (admin_context r)
            else answers "{\"error\":\"forbidden\"}" 403))
  unfolding auth_guard validate_token require_admin generate_access_token
  require_admin-login new key old now later username password w r header scheme h fresh parts
        bearer =
      let (is_admin, signed) = login-ok (key ∷ old) now username password w r h in
      let valid = verify-sign c new old key later r.access_token _ signed fresh in
      let full = split_space-nonempty header scheme r.access_token parts in
      let passed : auth_guard c (new ++ key ∷ old) later header ≡ serves (admin_context r) =
        rw (full, parts, bearer, valid) refl in
      (is_admin, passed, rw passed refl)
