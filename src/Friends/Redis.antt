-- ===== src/Friends/Redis.antt =====
-- The commands of the Redis server that internal/friends/service.go sends through go-redis, with the
-- behaviour that Redis documents for a server that answers (`Up`).
use cyandie_backend.Common.{
  ℕ, String, Bool, true, false, Option, some, List, ◌≡◌, ◌<◌, ◌&&◌, if◌then◌else◌, str_eq,
}

pub record Redis : Type 1 where
  pub Store : Type 0
  pub Up : Store → Type 0
  -- SADD key member, its result and its error dropped.
  pub s_add : String → String → Store → Store
  -- SREM key member, its result and its error dropped.
  pub s_rem : String → String → Store → Store
  -- SISMEMBER key member; `none` is an error.
  pub s_is_member : String → String → Store → Option Bool
  -- SET key value NX with a time to live in seconds; `none` is an error.
  pub set_nx : String → String → ℕ → Store → Option Bool × Store
  -- EXPIRE key seconds, its result and its error dropped.
  pub expire : String → ℕ → Store → Store
  -- EXISTS key; `none` is an error.
  pub exists : String → Store → Option ℕ
  -- DEL key, its result and its error dropped.
  pub del : String → Store → Store
  -- ZREMRANGEBYSCORE key -inf cutoff, its result and its error dropped.
  pub z_rem_range_by_score : String → ℕ → Store → Store
  -- ZREVRANGEBYSCORE key max 0 LIMIT 0 count; `none` is an error.
  pub z_rev_range_by_score : String → ℕ → ℕ → Store → Option (List String)
  pub s_add-Up : (key member : String) (s : Store) → Up s → Up (s_add key member s)
  pub s_rem-Up : (key member : String) (s : Store) → Up s → Up (s_rem key member s)
  pub s_is_member-s_add :
      (key member k m : String) (s : Store)
      → Up s
      → s_is_member k m (s_add key member s)
        ≡ (if str_eq key k && str_eq member m then some true else s_is_member k m s)
  pub s_is_member-s_rem :
      (key member k m : String) (s : Store)
      → Up s
      → s_is_member k m (s_rem key member s)
        ≡ (if str_eq key k && str_eq member m then some false else s_is_member k m s)
  pub set_nx-new :
      (key value : String) (ttl : ℕ) (s : Store)
      → Up s
      → exists key s ≡ some 0
      → (set_nx key value ttl s).0 ≡ some true
  pub set_nx-old :
      (key value : String) (ttl : ℕ) (s : Store)
      → Up s
      → exists key s ≡ some 1
      → (set_nx key value ttl s).0 ≡ some false
  pub set_nx-Up : (key value : String) (ttl : ℕ) (s : Store) → Up s → Up (set_nx key value ttl s).1
  pub exists-set_nx :
      (key value : String) (ttl : ℕ) (s : Store)
      → Up s
      → exists key (set_nx key value ttl s).1 ≡ some 1
  pub expire-Up : (key : String) (ttl : ℕ) (s : Store) → Up s → Up (expire key ttl s)
  pub exists-expire :
      (key k : String) (ttl : ℕ) (s : Store)
      → Up s
      → 0 < ttl
      → exists k (expire key ttl s) ≡ exists k s
  pub del-Up : (key : String) (s : Store) → Up s → Up (del key s)
  pub exists-del :
      (key k : String) (s : Store)
      → Up s
      → exists k (del key s) ≡ (if str_eq key k then some 0 else exists k s)
