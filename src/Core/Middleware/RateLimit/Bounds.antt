-- ===== src/Core/Middleware/RateLimit/Bounds.antt =====
-- How many requests `RateLimiter` of internal/core/middleware/ratelimit.go lets through.
use cyandie_backend.Common.{
  ℕ, suc, ◌+◌, ◌-◌, ◌*◌, ◌≤◌, ◌<◌, String, List, [], ◌∷◌, ◌≡◌, ap, ◌∙◌, arith, if◌then◌else◌, ◌==◌,
  str_eq, str_eq_iff, ltb, Bool-cases, inl, inr,
}
use cyandie_backend.Common.Int.{ℤ, pos, int64, ◌+ℤ◌}
use cyandie_backend.Core.Middleware.RateLimit.{
  RateLimitConfig, RedisLimiterClient, Request, Verdict, passes, refuses, limit_key, verdict, twice,
  limited, limited_all,
}

abbrev pub is_passed : Verdict → ℕ
is_passed (passes headers) = 1
is_passed (refuses retry) = 0

-- The requests under a key that pass.
abbrev pub passed : String → List (String × Verdict) → ℕ
passed key [] = 0
passed key ((k, v) ∷ vs) = (if str_eq k key then is_passed v else 0) + passed key vs

-- The time to live of a key, unless twice the window leaves the range of an `int64`.
twice_small : (window : ℕ) → window < 4611686018427387904 → twice (pos window) ≡ pos (2 * window)
unfolding twice int64 ◌+ℤ◌
twice_small window small = ground arith

module _ (client : RedisLimiterClient) (format_int : ℤ → String) (window limit : ℕ)
    (text group : String) where
  abbrev config : RateLimitConfig
  config = record { limit = pos limit; window = text }

  abbrev key_of : Request → ℕ → String
  key_of = limit_key client format_int (pos window) config group

  verdict-count :
      (c : ℕ)
      → is_passed (verdict client format_int (pos window) config group (suc c))
        ≡ (if ltb c limit then 1 else 0)
  verdict-count c = elim (Bool-cases (ltb c limit)) [
    | inl below ↦ ground (arith, below)
    | inr above ↦ ground (arith, above)
  ]

  -- While Redis answers, a request passes just if fewer than the limit came before it under its key.
  limited-verdict :
      (r : Request) (now : ℕ) (s : client.Store)
      → client.Up s
      → is_passed (limited client format_int (pos window) config group r now s).0
        ≡ (if ltb (client.count (key_of r now) s) limit then 1 else 0)
  unfolding limited
  limited-verdict r now s up =
      rw (client.incr-ok (key_of r now) s up) (verdict-count (client.count (key_of r now) s))

  limited-count :
      (r : Request) (now : ℕ) (k : String) (s : client.Store)
      → client.Up s
      → 0 < window
      → window < 4611686018427387904
      → client.count k (limited client format_int (pos window) config group r now s).1
        ≡ (if str_eq (key_of r now) k then suc (client.count k s) else client.count k s)
  unfolding limited
  limited-count r now k s up some_time small =
      let key = key_of r now in
      let s' = (client.incr key s).1 in
      rw (client.incr-ok key s up) (elim (Bool-cases (suc (client.count key s) == 1)) [
        | inl first ↦
            rw (first, twice_small window small)
              (client.count-expire key k (2 * window) s' (client.incr-Up key s up) (omega arith)
                ∙ client.count-incr key k s up)
        | inr later ↦ rw later (client.count-incr key k s up)
      ])

  limited-Up :
      (r : Request) (now : ℕ) (s : client.Store)
      → client.Up s
      → client.Up (limited client format_int (pos window) config group r now s).1
  unfolding limited
  limited-Up r now s up =
      let key = key_of r now in
      rw (client.incr-ok key s up) (elim (Bool-cases (suc (client.count key s) == 1)) [
        | inl first ↦ rw first (
            client.expire-Up key (twice (pos window)) (client.incr key s).1
              (client.incr-Up key s up))
        | inr later ↦ rw later (client.incr-Up key s up)
      ])

  -- While Redis answers and no key runs out, and for a positive window below 2^62 nanoseconds, of the requests
  -- under one key, which are those of one identity and group in one window, no more pass than the limit leaves
  -- after those that were counted before, however many come and whatever other requests come between them.
  pub passed-limited_all :
      (key : String) (qs : List (Request × ℕ)) (s : client.Store)
      → client.Up s
      → 0 < window
      → window < 4611686018427387904
      → passed key (limited_all client format_int (pos window) config group qs s)
        ≤ limit - client.count key s
  unfolding limited_all
  passed-limited_all key [] s up some_time small = omega arith
  passed-limited_all key ((r, now) ∷ qs) s up some_time small =
      let s' = (limited client format_int (pos window) config group r now s).1 in
      let rest = passed-limited_all key qs s' (limited-Up r now s up) some_time small in
      let counted = limited-count r now key s up some_time small in
      let decided = limited-verdict r now s up in
      elim (Bool-cases (str_eq (key_of r now) key)) [
        | inr other ↦ ground (arith, rest, counted, other)
        | inl own ↦
            let same : client.count (key_of r now) s ≡ client.count key s =
              ap (λ k. client.count k s) ((str_eq_iff (key_of r now) key).0 own) in
            elim (Bool-cases (ltb (client.count key s) limit)) [
              | inl below ↦ ground (arith, rest, counted, decided, own, same, below)
              | inr above ↦ ground (arith, rest, counted, decided, own, same, above)
            ]
      ]
