-- ===== src/Core/Middleware/RateLimit.antt =====
-- internal/core/middleware/ratelimit.go: `RateLimiter`. A time is a number of nanoseconds since Go's zero time, a
-- duration a number of nanoseconds.
pub mod Bounds
use cyandie_backend.Common.{
  ℕ, zero, suc, ◌+◌, ◌-◌, ◌*◌, ◌/◌, ◌%◌, ◌^◌, ◌<◌, String, Bool, true, false, Option, none, some,
  List, [], ◌∷◌, ◌≡◌, if◌then◌else◌, ◌==◌, str_eq,
}
use Prim.Native.String.{◌++◌ as append}
use cyandie_backend.Common.Int.{ℤ, pos, negsuc, sub_ℕ, ltb_ℤ, int64, ◌+ℤ◌}

pub record RateLimitConfig : Type 0 where
  pub limit : ℤ
  pub window : String

-- `RedisLimiterClient` over what a server holds, as the documentation of INCR and EXPIRE gives it, while no
-- key runs out.
pub record RedisLimiterClient : Type 1 where
  pub Store : Type 0
  pub Up : Store → Type 0
  pub count : String → Store → ℕ
  -- `none` is an error.
  pub incr : String → Store → Option ℕ × Store
  pub expire : String → ℤ → Store → Store
  pub incr-ok : (key : String) (s : Store) → Up s → (incr key s).0 ≡ some (suc (count key s))
  pub count-incr :
      (key k : String) (s : Store)
      → Up s
      → count k (incr key s).1 ≡ (if str_eq key k then suc (count k s) else count k s)
  pub incr-Up : (key : String) (s : Store) → Up s → Up (incr key s).1
  pub count-expire :
      (key k : String) (ttl : ℕ) (s : Store)
      → Up s
      → 0 < ttl
      → count k (expire key (pos ttl) s) ≡ count k s
  pub expire-Up : (key : String) (ttl : ℤ) (s : Store) → Up s → Up (expire key ttl s)

-- What the limiter reads of a request.
pub record Request : Type 0 where
  pub user_id_header : String
  pub remote_addr : String
  pub request_id_header : String

-- `passes` calls the next handler, with the two headers where they are set; `refuses` answers 429 with
-- "Retry-After".
pub data Verdict : Type 0 where
  passes : Option (ℤ × ℤ) → Verdict
  refuses : ℤ → Verdict

abbrev pub minute : ℤ
minute = pos 60000000000

-- `parseWindow`, given `time.ParseDuration`
abbrev pub window_or_minute : Option ℤ → ℤ
window_or_minute none = minute
window_or_minute (some d) = d

-- `Truncate`
abbrev pub truncate : ℤ → ℕ → ℕ
truncate (pos zero) t = t
truncate (pos (suc w)) t = t - t % suc w
truncate (negsuc w) t = t

-- `Unix`
abbrev pub unix : ℕ → ℤ
unix t = sub_ℕ (t / 1000000000) 62135596800

-- `int(d.Seconds())`: the float64 between them is exact enough for windows below 2^23 seconds.
abbrev pub seconds : ℤ → ℤ
seconds (pos n) = pos (n / 1000000000)
seconds (negsuc n) = sub_ℕ 0 (suc n / 1000000000)

-- `windowDuration*2` in an `int64`, which wraps around from 2^62 nanoseconds on.
unfoldable pub twice : ℤ → ℤ
twice d = int64 (d +ℤ d)

abbrev pub not_below_zero : ℤ → ℤ
not_below_zero (pos n) = pos n
not_below_zero (negsuc n) = pos 0

-- `limit - int(count)`, and 0 below 0.
abbrev pub left_over : ℤ → ℕ → ℤ
left_over limit count = not_below_zero (int64 (limit +ℤ sub_ℕ 0 count))

-- `resolveIdentity`
pub resolve_identity : Request → String
resolve_identity r =
    if str_eq r.user_id_header ""
    then append "ip:" r.remote_addr
    else append "user:" r.user_id_header

module _ (client : RedisLimiterClient) (format_int : ℤ → String) (window : ℤ)
    (config : RateLimitConfig) (group : String) where
  -- The key of a request at a time.
  abbrev pub limit_key : Request → ℕ → String
  unfolding resolve_identity
  limit_key r now = append "ratelimit:" (
      append (resolve_identity r)
        (append ":" (append group (append ":" (format_int (unix (truncate window now)))))))

  abbrev pub verdict : ℕ → Verdict
  verdict count =
      if ltb_ℤ config.limit (pos count)
      then refuses (seconds window)
      else passes (some (config.limit, left_over config.limit count))

  abbrev pub after_incr : String → Option ℕ → client.Store → Verdict × client.Store
  after_incr key none s = (passes none, s)
  after_incr key (some count) s =
      (verdict count, if count == 1 then client.expire key (twice window) s else s)

  -- `Middleware`, for one request at a time
  unfoldable pub limited : Request → ℕ → client.Store → Verdict × client.Store
  limited r now s =
      let key = limit_key r now in let (count, s') = client.incr key s in after_incr key count s'

  -- Requests one after the other: the key and the verdict of each.
  unfoldable pub limited_all : List (Request × ℕ) → client.Store → List (String × Verdict)
  limited_all [] s = []
  limited_all ((r, now) ∷ qs) s =
      let (v, s') = limited r now s in (limit_key r now, v) ∷ limited_all qs s'
