-- ===== src/Auth/Guard.antt =====
-- internal/auth/middleware.go: `AuthGuard` and `RequireAdmin`.
pub mod Access
use Prim.Native.Char.{Char, code}
use cyandie_backend.Common.{
  ℕ, ◌+◌, String, Bool, true, false, not, ◌&&◌, Option, none, some, List, [], ◌∷◌, if◌then◌else◌,
  ◌==◌, leb, str_eq,
}
use cyandie_backend.Core.Errors.{
  Result, ok, err, panicked, HttpError, write_http, new, err_unauthorized, err_token_invalid,
}
use cyandie_backend.Auth.External.{Claims, Crypto}
use cyandie_backend.Auth.Tokens.{JwtKey}
use cyandie_backend.Auth.Service.{validate_token}

-- The values of the three context keys.
pub record Context : Type 0 where
  pub user_id : String
  pub session_id : String
  pub role : String

-- What a middleware does: it answers itself, here with an `AppError`, with the text of `http.Error` and
-- a status, or not at all after a panic, or it calls the next handler in a context.
pub data Guarded : Type 0 where
  refuses : HttpError → Guarded
  answers : String → ℕ → Guarded
  serves : Context → Guarded
  panics : Guarded

-- `strings.SplitN(text, " ", 2)`, where it has two parts.
abbrev pub cut_char : Char → Option (String × String) → Option (String × String)
cut_char c none = none
cut_char c (some (a, b)) = some (String.◌∷◌ c a, b)

unfoldable pub split_space : String → Option (String × String)
split_space String.[] = none
split_space (String.◌∷◌ c s) =
    let rest = split_space s in if code c == 32 then some (String.[], s) else cut_char c rest

-- The letters of "bearer" are folded to by themselves and their capitals only.
abbrev lower : ℕ → ℕ
lower n = if leb 65 n && leb n 90 then n + 32 else n

-- `strings.EqualFold` with a text of such letters, given by their codes.
unfoldable pub equal_fold : String → List ℕ → Bool
equal_fold String.[] [] = true
equal_fold String.[] (n ∷ ns) = false
equal_fold (String.◌∷◌ c s) [] = false
equal_fold (String.◌∷◌ c s) (n ∷ ns) = lower (code c) == n && equal_fold s ns

abbrev pub is_bearer : String → Bool
is_bearer s = equal_fold s (98 ∷ 101 ∷ 97 ∷ 114 ∷ 101 ∷ 114 ∷ [])

abbrev pub served : Result Claims → Guarded
served (ok claims) =
    serves (record { user_id = claims.user_id; session_id = claims.session_id; role = claims.role })
served (err e) = refuses (write_http (new err_token_invalid "invalid token"))
served panicked = panics

-- `AuthGuard`, given the time and the header "Authorization".
unfoldable pub auth_guard : Crypto → List JwtKey → ℕ → String → Guarded
auth_guard c keys now header =
    if str_eq header ""
    then refuses (write_http (new err_unauthorized "missing authorization header"))
    else elim (split_space header) [
      | none ↦ refuses (write_http (new err_unauthorized "invalid authorization format"))
      | some (scheme, token) ↦
          if not (is_bearer scheme)
          then refuses (write_http (new err_unauthorized "invalid authorization format"))
          else served (validate_token c keys now token)
    ]

-- `RequireAdmin`, behind another middleware.
unfoldable pub require_admin : Guarded → Guarded
require_admin (serves ctx) =
    if str_eq ctx.role "admin" then serves ctx else answers "{\"error\":\"forbidden\"}" 403
require_admin (refuses e) = refuses e
require_admin (answers text status) = answers text status
require_admin panics = panics
