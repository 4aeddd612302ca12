-- ===== src/Examples/Core.antt =====
-- Modules, middleware and the rate limiter of internal/core.
use cyandie_backend.Common.{
  ℕ, suc, ◌≤◌, String, Bool, true, false, some, List, [], ◌∷◌, ◌≡◌, ◌↔◌, refl, arith, if◌then◌else◌,
  str_eq,
}
use cyandie_backend.Common.Int.{pos}
use cyandie_backend.Core.App.{App, Module, registered, started, stopped, returned, run}
use cyandie_backend.Core.App.Life.{run-returned}
use cyandie_backend.Core.Middleware.{
  HttpHandler, Incoming, other_body, unwinds, crashes, by_timeout, by_recovery, by_logger, used,
  nearest, surrounded, used-unwinds,
}
use cyandie_backend.Core.Middleware.Timeout.{
  TimeoutState, initial, begins, by_own, expire, OwnSteps, returned as over, timeouts, waiting,
  timeouts-IsReachable, returns,
}
use cyandie_backend.Core.Middleware.RateLimit.{RedisLimiterClient, Request, limited_all}
use cyandie_backend.Core.Middleware.RateLimit.Bounds.{passed, passed-limited_all}

abbrev hooks : String → Bool → Module
hooks name stops = record { name = name; services = []; starts = true; stops = stops }

abbrev app : App
app = record { modules = hooks "users" false ∷ hooks "auth" true ∷ []; registry = []; events = [] }

run-returned_example :
    ((run true app).0 ≡ returned)
    × ((run true app).1.events
        ≡ registered "users"
          ∷ registered "auth"
          ∷ started "users"
          ∷ started "auth"
          ∷ stopped "auth"
          ∷ stopped "users"
          ∷ [])
run-returned_example = run-returned app (refl, (refl, tt))

abbrev late : TimeoutState
late = record initial { is_expired = true }

timeouts-IsReachable_example :
    (timeouts late.sent ≤ 1) × (late.phase ≡ waiting → timeouts late.sent ≡ 0)
timeouts-IsReachable_example = timeouts-IsReachable late (by_own begins (expire initial))

returns_example : (t : TimeoutState) × OwnSteps initial t × (t.phase ≡ over)
returns_example = returns initial

-- A handler that panics after its first write.
abbrev breaks : HttpHandler
breaks q id = unwinds (some (record { request_id = id; status = 200; body = other_body "{" }))

abbrev asked : Incoming
asked = record { request_id = ""; path = "/" }

used-unwinds_example :
    ((used "0f" false (by_timeout ∷ by_recovery ∷ by_logger ∷ []) breaks asked "" ≡ crashes)
      ↔ (nearest (by_timeout ∷ by_recovery ∷ by_logger ∷ []) ≡ some by_timeout))
    × (surrounded "0f" false breaks asked "" ≡ crashes)
used-unwinds_example =
    used-unwinds "0f" false breaks
      (λ q id. some (record { request_id = id; status = 200; body = other_body "{" }))
      (by_timeout ∷ by_recovery ∷ by_logger ∷ []) asked "" (λ q id. refl)

-- Counters in memory.
abbrev counters : RedisLimiterClient
counters = record {
  Store = String → ℕ;
  Up = λ s. Unit {0};
  count = λ k s. s k;
  incr = λ key s. (some (suc (s key)), λ k. if str_eq key k then suc (s k) else s k);
  expire = λ key ttl s. s;
  incr-ok = λ key s up. refl;
  count-incr = λ key k s up. refl;
  incr-Up = λ key s up. tt;
  count-expire = λ key k ttl s up some_time. refl;
  expire-Up = λ key ttl s up. tt;
}

abbrev from : String → Request
from addr = record { user_id_header = ""; remote_addr = addr; request_id_header = "" }

abbrev key : String
key = "ratelimit:ip:a:auth:now"

abbrev burst : List (Request × ℕ)
burst = (from "a", 0) ∷ (from "a", 1) ∷ (from "b", 1) ∷ (from "a", 2) ∷ []

passed-limited_all_example :
    passed key (
      limited_all counters
        (λ n. "now")
        (pos 10)
        (record { limit = pos 2; window = "10ns" })
        "auth"
        burst
        (λ k. 0))
    ≤ 2
passed-limited_all_example =
    passed-limited_all counters (λ n. "now") 10 2 "10ns" "auth" key burst (λ k. 0) tt (omega arith)
      (omega arith)
