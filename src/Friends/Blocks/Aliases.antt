-- ===== src/Friends/Blocks/Aliases.antt =====
-- `Block` of internal/friends/service.go keys the cache, and compares the two users, by the texts of
-- the request. A UUID has several texts.
use cyandie_backend.Common.{
  ℕ, String, true, false, some, [], ◌∷◌, ◌++◌, ◌≡◌, ◌≢◌, arith, str_eq_ne, any,
}
use cyandie_backend.Core.Errors.{ok}
use cyandie_backend.Db.Rows.{null_string}
use cyandie_backend.Db.Social.{Env, create_block_relation_q, is_block_of, new_block}
use cyandie_backend.Uuid.{UuidCodec}
use cyandie_backend.Friends.Redis.{Redis}
use cyandie_backend.Friends.State.{FriendsService, World, blocked_key}
use cyandie_backend.Friends.Blocks.{block, cached_block}

module _ (x : Redis) (u : UuidCodec) (svc : FriendsService) (env : Env) where
  -- A block of a user under another text than the canonical one has no effect on what the cache answers
  -- for the canonical text, whoever asks, while Redis answers.
  pub cached_block-block_alias :
      (blocker blocked reason : String) (target : String) (blid : ℕ) (w : World x.Store)
      → x.Up w.cache
      → u.parse blocked ≡ some blid
      → blocked ≢ u.format blid
      → cached_block x u svc env target
          (u.format blid)
          (block x u svc env blocker blocked reason w).1
        ≡ cached_block x u svc env target (u.format blid) w
  unfolding block cached_block
  cached_block-block_alias blocker blocked reason target blid w up parsed alias = ground (
    arith,
    x.s_is_member-s_add (blocked_key blocker) blocked (blocked_key target) (u.format blid) w.cache
        up,
    str_eq_ne blocked (u.format blid) alias,
  )

  -- A user can block themself under a second text of their id, while the insertion works and the pair is
  -- not there: the request succeeds and the row is stored.
  pub block_self :
      (blocker blocked reason : String) (id : ℕ) (w : World x.Store)
      → u.parse blocker ≡ some id
      → u.parse blocked ≡ some id
      → blocker ≢ blocked
      → env.fails create_block_relation_q ≡ false
      → env.is_user id ≡ true
      → any (is_block_of id id) w.tables.blocks ≡ false
      → ((block x u svc env blocker blocked reason w).0 ≡ ok tt)
        × ((block x u svc env blocker blocked reason w).1.tables.blocks
            ≡ w.tables.blocks ++ new_block env id id (null_string reason) ∷ [])
  unfolding block
  block_self blocker blocked reason id w eb ed ne up user free =
      let differ = str_eq_ne blocker blocked ne in
      (
        ground (arith, eb, ed, differ, up, user, free),
        ground (arith, eb, ed, differ, up, user, free),
      )
