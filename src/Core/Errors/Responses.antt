-- ===== src/Core/Errors/Responses.antt =====
-- What internal/core/errors and `writeAppError` of the handlers answer for an error.
use cyandie_backend.Common.{
  [], ◌∷◌, str_eq, ℕ, ◌≤◌, String, Bool, true, false, ◌≡◌, ◌≢◌, refl, arith, if◌then◌else◌,
}
use cyandie_backend.Core.Errors.{
  AppError, GoError, app, database, plain, new, err_internal, http_status, with_detail,
  with_request_id, write_http, write_app_error, is_one_of, err_bad_request, err_invalid_credentials,
  err_otp_invalid, err_otp_expired, err_unauthorized, err_token_expired, err_token_invalid,
  err_session_revoked, err_forbidden, err_user_banned, err_not_found, err_platform_not_supported,
  err_conflict, err_user_exists, err_platform_binding_exists, err_timeout, err_rate_limited,
  err_platform_not_bound, err_last_credential,
}

-- The statuses that answer an error.
abbrev pub IsErrorStatus : ℕ → Type 0
IsErrorStatus n = (400 ≤ n) × (n ≤ 503)

if_range :
    {x y : ℕ} (b : Bool) → IsErrorStatus x → IsErrorStatus y → IsErrorStatus (if b then x else y)
if_range true hx hy = hx
if_range false hx hy = hy

http_status_range : (code : String) → IsErrorStatus (http_status code)
unfolding http_status
http_status_range code =
    if_range {x = 400}
      (is_one_of code
        (err_bad_request ∷ err_invalid_credentials ∷ err_otp_invalid ∷ err_otp_expired ∷ []))
      (omega arith, omega arith)
      (if_range {x = 401}
        (is_one_of code
          (err_unauthorized ∷ err_token_expired ∷ err_token_invalid ∷ err_session_revoked ∷ []))
        (omega arith, omega arith)
        (if_range {x = 403} (is_one_of code (err_forbidden ∷ err_user_banned ∷ []))
          (omega arith, omega arith)
          (if_range {x = 404} (is_one_of code (err_not_found ∷ err_platform_not_supported ∷ []))
            (omega arith, omega arith)
            (if_range {x = 409}
              (is_one_of code (err_conflict ∷ err_user_exists ∷ err_platform_binding_exists ∷ []))
              (omega arith, omega arith)
              (if_range {x = 503} (str_eq code err_timeout) (omega arith, omega arith)
                (if_range {x = 429} (str_eq code err_rate_limited) (omega arith, omega arith)
                  (if_range {x = 404} (str_eq code err_platform_not_bound)
                    (omega arith, omega arith)
                    (if_range {x = 409} {y = 500} (str_eq code err_last_credential)
                      (omega arith, omega arith) ((omega arith, omega arith))))))))))

-- Details do not change the status of an error.
pub http_status-with_detail :
    (e : AppError) (k v : String) → (write_http (with_detail e k v)).status ≡ (write_http e).status
unfolding with_detail write_http
http_status-with_detail e k v = refl

-- Every error is answered by a client or server error, never by a success: the status is between 400 and
-- 503 and `ok` is false. Of an error that is no `AppError` nothing is shown but "internal error".
pub write_app_error_lem :
    (request_id : String) (e : GoError)
    → let r = write_app_error request_id e in
      (400 ≤ r.status)
      × (r.status ≤ 503)
      × (r.is_ok ≡ false)
      × (((a : AppError) → e ≢ app a) → r.error ≡ new err_internal "internal error")
unfolding write_app_error write_http with_request_id
write_app_error_lem request_id (app a) =
    let (low, high) = http_status_range a.code in (low, high, refl, λ h. absurd (h a refl))
write_app_error_lem request_id database =
    let (low, high) = http_status_range err_internal in (low, high, refl, λ h. refl)
write_app_error_lem request_id (plain text) =
    let (low, high) = http_status_range err_internal in (low, high, refl, λ h. refl)
