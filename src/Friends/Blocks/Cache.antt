-- ===== src/Friends/Blocks/Cache.antt =====
-- `LoadBlockCache` of internal/friends/service.go: the cache that it builds, against the table.
use cyandie_backend.Common.{
  ℕ, String, true, false, some, List, [], ◌∷◌, ◌≡◌, refl, arith, if◌then◌else◌, str_eq, str_eq_iff,
  any, any-find, ◌==◌,
}
use text.Mathlib.TextLemmas.{append_cancel_left}
use cyandie_backend.Core.Errors.{ok}
use cyandie_backend.Db.Rows.{order_desc, any-order_desc}
use cyandie_backend.Db.Social.{
  BlockRelation, Tables, Env, list_all_block_relations_q, is_blocked_by_q, is_block_of,
}
use cyandie_backend.Db.Social
use cyandie_backend.Uuid.{UuidCodec}
use cyandie_backend.Friends.Redis.{Redis}
use cyandie_backend.Friends.State.{FriendsService, World, blocked_key}
use cyandie_backend.Friends.Blocks.{
  has_block, cache_blocks, load_block_cache, is_blocked_in_db, is_blocked,
}

-- The database's answer, as a search for a row.
is_blocked_by-any :
    (env : Env) (a b : ℕ) (t : Tables)
    → env.fails is_blocked_by_q ≡ false
    → has_block (Social.is_blocked_by env a b t) ≡ ok (any (is_block_of a b) t.blocks)
unfolding Social.is_blocked_by
is_blocked_by-any env a b t h = ground (arith, h, any-find (is_block_of a b) t.blocks)

pub str_eq-blocked_key : (s t : String) → str_eq (blocked_key s) (blocked_key t) ≡ str_eq s t
str_eq-blocked_key s t = ground (
  arith,
  str_eq_iff s t,
  str_eq_iff (blocked_key s) (blocked_key t),
  append_cancel_left "friends:blocked:" s t,
)

module _ (u : UuidCodec) where
  pub format-injective : (a b : ℕ) → u.format a ≡ u.format b → a ≡ b
  format-injective a b h = cc (u.parse-format a, u.parse-format b)

  pub str_eq-format : (a b : ℕ) → str_eq (u.format a) (u.format b) ≡ (a == b)
  str_eq-format a b = ground (arith, str_eq_iff (u.format a) (u.format b), format-injective a b)

module _ (x : Redis) (u : UuidCodec) where
  -- The cache after the loop: the pairs of its list are in, and all else is as it was.
  s_is_member-cache_blocks :
      (bs : List BlockRelation) (s : x.Store) (a b : ℕ)
      → x.Up s
      → x.s_is_member (blocked_key (u.format a)) (u.format b) (cache_blocks x u bs s) ≡ (
          if any (is_block_of a b) bs
          then some true
          else x.s_is_member (blocked_key (u.format a)) (u.format b) s)
  unfolding cache_blocks
  s_is_member-cache_blocks [] s a b h = refl
  s_is_member-cache_blocks (r ∷ bs) s a b h =
      let key = blocked_key (u.format r.blocker_id) in
      let member = u.format r.blocked_id in
      ground (
        arith,
        s_is_member-cache_blocks bs (x.s_add key member s) a b (x.s_add-Up key member s h),
        x.s_is_member-s_add key member (blocked_key (u.format a)) (u.format b) s h,
        str_eq-blocked_key (u.format r.blocker_id) (u.format a),
        str_eq-format u r.blocker_id a,
        str_eq-format u r.blocked_id b,
      )

-- No set of blocked users is in the store.
abbrev pub NoBlockSets : (x : Redis) → x.Store → Type 0
NoBlockSets x s = (id member : String) → x.s_is_member (blocked_key id) member s ≡ some false

module _ (x : Redis) (u : UuidCodec) (svc : FriendsService) (env : Env) where
  -- On a Redis store without block sets, while the two statements work, `LoadBlockCache` makes `IsBlocked` answer for the canonical
  -- texts of two ids what the database would answer.
  pub is_blocked-load_block_cache :
      (a b : ℕ) (w : World x.Store)
      → svc.has_rdb ≡ true
      → x.Up w.cache
      → NoBlockSets x w.cache
      → env.fails list_all_block_relations_q ≡ false
      → env.fails is_blocked_by_q ≡ false
      → (is_blocked x u svc env (u.format a) (u.format b) (load_block_cache x u svc env w).1).0
        ≡ (is_blocked_in_db x u svc env (u.format a) (u.format b) w).0
  unfolding is_blocked load_block_cache
  is_blocked-load_block_cache a b w rdb up fresh list lookup = ground (
    arith,
    u.parse-format a,
    u.parse-format b,
    fresh (u.format a) (u.format b),
    s_is_member-cache_blocks x u (order_desc (λ r. r.created_at) w.tables.blocks) w.cache a b up,
    any-order_desc (is_block_of a b) (λ r. r.created_at) w.tables.blocks,
    is_blocked_by-any env a b w.tables lookup,
  )
