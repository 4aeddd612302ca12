-- ===== src/Core/Middleware.antt =====
-- internal/core/middleware: what surrounds the handlers, in the order of cmd/server/main.go. A handler is seen by
-- the goroutine that calls it.
pub mod Timeout
pub mod RateLimit
use cyandie_backend.Common.{
  ℕ, String, Bool, true, false, Option, none, some, List, [], ◌∷◌, ◌≡◌, ◌↔◌, refl, sym, ap, ◌∙◌,
  arith, if◌then◌else◌, str_eq, Bool-cases, inl, inr,
}
use Prim.Native.String.{◌++◌ as append}

-- The header "X-Request-ID" of the request.
pub record Incoming : Type 0 where
  pub request_id : String
  pub path : String

-- A body with an error's code, message and request ID, another one, or one written after the other.
pub data ReplyBody : Type 0 where
  error_body : String → String → String → ReplyBody
  other_body : String → ReplyBody
  followed_by : ReplyBody → ReplyBody → ReplyBody

-- The header "X-Request-ID" of the response, its status and its body.
pub record Reply : Type 0 where
  pub request_id : String
  pub status : ℕ
  pub body : ReplyBody

-- A handler returns after a reply, its panic reaches its caller after what it has written of a reply, or the
-- process has ended.
pub data Outcome : Type 0 where
  replies : Reply → Outcome
  unwinds : Option Reply → Outcome
  crashes : Outcome

-- A handler, given the request and the header "X-Request-ID" that the response has by then, which nothing
-- but `RequestID` sets.
abbrev pub HttpHandler : Type 0
HttpHandler = Incoming → String → Outcome

abbrev pub internal_error : ReplyBody
internal_error = error_body "INTERNAL_ERROR" "internal server error" ""

-- `Recovery`: after a first write `WriteHeader` has no effect any more, and the body comes behind the first.
abbrev pub recovered : String → Outcome → Outcome
recovered response_id (replies r) = replies r
recovered response_id (unwinds none) =
    replies (record { request_id = response_id; status = 500; body = internal_error })
recovered response_id (unwinds (some r)) =
    replies (record r { body = followed_by r.body internal_error })
recovered response_id crashes = crashes

pub recovery : HttpHandler → HttpHandler
recovery next r response_id = recovered response_id (next r response_id)

-- `Timeout`, by whether the deadline passes before the handler writes or ends. A panic of a goroutine that
-- nothing in it recovers ends the process.
abbrev pub awaited : Bool → String → Outcome → Outcome
awaited true response_id (replies r) = replies (record {
  request_id = response_id;
  status = 503;
  body = error_body "TIMEOUT" "request timeout" response_id;
})
awaited false response_id (replies r) = replies r
awaited is_late response_id (unwinds sent) = crashes
awaited is_late response_id crashes = crashes

pub timeout : Bool → HttpHandler → HttpHandler
timeout is_late next r response_id = awaited is_late response_id (next r response_id)

-- `Logger`: the record of the request is written after the handler, unless it panics.
pub logger : HttpHandler → HttpHandler
logger next r response_id = next r response_id

-- `generateRequestID`, given the random bytes in hexadecimal
abbrev pub request_id_text : String → String
request_id_text random = append "req_" random

-- `RequestID`
pub with_request_id : String → HttpHandler → HttpHandler
with_request_id random next r response_id =
    let id = if str_eq r.request_id "" then request_id_text random else r.request_id in
    next (record r { request_id = id }) id

-- What this program puts around its handlers.
pub data Middleware : Type 0 where
  by_request_id by_recovery by_timeout by_logger : Middleware

pub around : String → Bool → Middleware → HttpHandler → HttpHandler
unfolding recovery timeout logger with_request_id
around random is_late by_request_id = with_request_id random
around random is_late by_recovery = recovery
around random is_late by_timeout = timeout is_late
around random is_late by_logger = logger

-- Calls of `router.Use`, the first one outermost.
pub used : String → Bool → List Middleware → HttpHandler → HttpHandler
unfolding around
used random is_late [] next = next
used random is_late (m ∷ ms) next = around random is_late m (used random is_late ms next)

-- Those of `main`.
pub surrounded : String → Bool → HttpHandler → HttpHandler
unfolding used
surrounded random is_late =
    used random is_late (by_request_id ∷ by_recovery ∷ by_timeout ∷ by_logger ∷ [])

abbrev guard_of : Middleware → Option Middleware
guard_of by_request_id = none
guard_of by_recovery = some by_recovery
guard_of by_timeout = some by_timeout
guard_of by_logger = none

abbrev or_else : Option Middleware → Option Middleware → Option Middleware
or_else none g = g
or_else (some g) k = some g

-- The one of `Recovery` and `Timeout` that stands nearest to the handler, if any.
abbrev pub nearest : List Middleware → Option Middleware
nearest [] = none
nearest (m ∷ ms) = or_else (nearest ms) (guard_of m)

-- Who has dealt with a panic, going by what became of it.
abbrev dealt_with : Outcome → Option Middleware
dealt_with (replies r) = some by_recovery
dealt_with (unwinds sent) = none
dealt_with crashes = some by_timeout

dealt_with-recovered :
    (id : String) (o : Outcome)
    → dealt_with (recovered id o) ≡ or_else (dealt_with o) (some by_recovery)
dealt_with-recovered id (replies r) = refl
dealt_with-recovered id (unwinds none) = refl
dealt_with-recovered id (unwinds (some r)) = refl
dealt_with-recovered id crashes = refl

dealt_with-awaited :
    (is_late : Bool) (id : String) (o : Outcome)
    → dealt_with (awaited is_late id o) ≡ or_else (dealt_with o) (some by_timeout)
dealt_with-awaited true id (replies r) = refl
dealt_with-awaited false id (replies r) = refl
dealt_with-awaited is_late id (unwinds sent) = refl
dealt_with-awaited is_late id crashes = refl

or_else-none : (g : Option Middleware) → g ≡ or_else g none
or_else-none none = refl
or_else-none (some g) = refl

dealt_with-used :
    (random : String) (is_late : Bool) (next : HttpHandler)
    (sent : Incoming → String → Option Reply) (ms : List Middleware)
    → ((q : Incoming) (id : String) → next q id ≡ unwinds (sent q id))
    → (r : Incoming) (id : String) → dealt_with (used random is_late ms next r id) ≡ nearest ms
unfolding used around recovery timeout logger with_request_id
dealt_with-used random is_late next sent [] h r id = ap dealt_with (h r id)
dealt_with-used random is_late next sent (by_request_id ∷ ms) h r id =
    let given = if str_eq r.request_id "" then request_id_text random else r.request_id in
    dealt_with-used random is_late next sent ms h (record r { request_id = given }) given
    ∙ or_else-none (nearest ms)
dealt_with-used random is_late next sent (by_recovery ∷ ms) h r id =
    dealt_with-recovered id (used random is_late ms next r id)
    ∙ ap (λ g. or_else g (some by_recovery)) (dealt_with-used random is_late next sent ms h r id)
dealt_with-used random is_late next sent (by_timeout ∷ ms) h r id =
    dealt_with-awaited is_late id (used random is_late ms next r id)
    ∙ ap (λ g. or_else g (some by_timeout)) (dealt_with-used random is_late next sent ms h r id)
dealt_with-used random is_late next sent (by_logger ∷ ms) h r id =
    dealt_with-used random is_late next sent ms h r id ∙ or_else-none (nearest ms)

dealt_with-crashes : (o : Outcome) → (o ≡ crashes) ↔ (dealt_with o ≡ some by_timeout)
dealt_with-crashes (replies r) = (λ e. cc, λ e. cc)
dealt_with-crashes (unwinds sent) = (λ e. cc, λ e. cc)
dealt_with-crashes crashes = (λ e. refl, λ e. refl)

-- Behind any middleware in any order, a handler that panics, whatever it has written before, ends the process
-- exactly when `Timeout` stands nearer to it than every `Recovery`; and behind the middleware of `main`, in
-- the order of `main`, it does end the process.
pub used-unwinds :
    (random : String) (is_late : Bool) (next : HttpHandler)
    (sent : Incoming → String → Option Reply) (ms : List Middleware) (r : Incoming) (id : String)
    → ((q : Incoming) (i : String) → next q i ≡ unwinds (sent q i))
    → ((used random is_late ms next r id ≡ crashes) ↔ (nearest ms ≡ some by_timeout))
      × (surrounded random is_late next r id ≡ crashes)
unfolding surrounded
used-unwinds random is_late next sent ms r id h =
    let order = by_request_id ∷ by_recovery ∷ by_timeout ∷ by_logger ∷ [] in
    (
      rw (sym (dealt_with-used random is_late next sent ms h r id))
          (dealt_with-crashes (used random is_late ms next r id)),
      (dealt_with-crashes (used random is_late order next r id)).1
          (dealt_with-used random is_late next sent order h r id),
    )

-- A handler that replies in time is called with the ID that the response carries: the request's own one, or
-- a new one where it has none, and its reply comes through.
pub surrounded-replies :
    (random : String) (next : HttpHandler) (r : Incoming) (response_id : String) (reply : Reply)
    → let id = if str_eq r.request_id "" then request_id_text random else r.request_id in
      next (record r { request_id = id }) id ≡ replies reply
      → surrounded random false next r response_id ≡ replies reply
unfolding surrounded used around recovery timeout logger with_request_id
surrounded-replies random next r response_id reply h = rw h refl
