-- ===== src/Core/Http.antt =====
-- What the HTTP handlers of internal/ write: `writeJSON`, `writeAppError` and their variants.
use cyandie_backend.Common.{ℕ, String, Bool, true, false, Option, none, some, if◌then◌else◌, str_eq}
use cyandie_backend.Core.Errors.{
  Result, ok, err, panicked, GoError, app, database, plain, HttpError, new, write_http,
  write_app_error, err_bad_request, err_internal, err_unauthorized,
}
use cyandie_backend.Core.Exec.{Exec}

-- A status with data, a status alone, an `AppError`, a text of `http.Error` with a status, or a panic.
pub data Response {ℓ} (A : Type ℓ) : Type ℓ where
  sends : ℕ → A → Response A
  sends_status : ℕ → Response A
  sends_error : HttpError → Response A
  sends_text : String → ℕ → Response A
  panics : Response A

abbrev pub Handler {ℓ} : Type ℓ → Type ℓ → Type ℓ
Handler S A = S → Response A × S

-- The variants that do not set the request ID.
abbrev pub plain_error : GoError → HttpError
plain_error (app e) = write_http e
plain_error database = write_http (new err_internal "internal error")
plain_error (plain text) = write_http (new err_internal "internal error")

module _ {ℓ} {A : Type ℓ} where
  -- `writeJSON` and `writeAppError`, given the header "X-Request-ID" of the response.
  abbrev pub respond : String → ℕ → Result A → Response A
  respond request_id status (ok a) = sends status a
  respond request_id status (err e) = sends_error (write_app_error request_id e)
  respond request_id status panicked = panics

  abbrev pub respond_plain : ℕ → Result A → Response A
  respond_plain status (ok a) = sends status a
  respond_plain status (err e) = sends_error (plain_error e)
  respond_plain status panicked = panics

  abbrev pub respond_status : String → ℕ → Result (Unit {0}) → Response A
  respond_status request_id status (ok u) = sends_status status
  respond_status request_id status (err e) = sends_error (write_app_error request_id e)
  respond_status request_id status panicked = panics

  abbrev pub bad_body : Response A
  bad_body = sends_error (write_http (new err_bad_request "invalid request body"))

  -- The handler after a body that `json.NewDecoder(r.Body).Decode` has read.
  abbrev pub with_body : {S B : Type ℓ} → Option B → (B → Handler S A) → Handler S A
  with_body none h s = (bad_body, s)
  with_body (some b) h s = h b s

  -- `userID == ""`
  abbrev pub with_user : {S : Type ℓ} → String → Handler S A → Handler S A
  with_user user_id h s =
      if str_eq user_id ""
      then (sends_error (write_http (new err_unauthorized "authentication required")), s)
      else h s

  -- A status below 400.
  abbrev pub is_success : Response A → Bool
  is_success (sends status a) = true
  is_success (sends_status status) = true
  is_success (sends_error e) = false
  is_success (sends_text text status) = false
  is_success panics = false

-- A call and what becomes of its result.
abbrev pub finish {ℓ} : {S A B : Type ℓ} → (Result A → Response B) → Exec S A → Handler S B
finish f m s = let (r, s') = m s in (f r, s')

-- `map[string]string{"status": "ok"}` after a call without a value, with the ID of the request and without it.
abbrev pub respond_ok : String → Result (Unit {0}) → Response String
respond_ok request_id (ok done) = sends 200 "ok"
respond_ok request_id (err e) = sends_error (write_app_error request_id e)
respond_ok request_id panicked = panics

abbrev pub respond_ok_plain : Result (Unit {0}) → Response String
respond_ok_plain (ok done) = sends 200 "ok"
respond_ok_plain (err e) = sends_error (plain_error e)
respond_ok_plain panicked = panics
