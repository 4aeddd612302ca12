-- ===== src/Friends/Blocks/Roundtrip.antt =====
-- `Block` and `Unblock` of internal/friends/service.go, as `IsBlocked` sees them afterwards.
use cyandie_backend.Common.{
  ℕ, String, true, false, not, none, some, List, [], ◌∷◌, ◌≡◌, refl, arith, str_eq_refl, inl, inr,
  Option-cases, find-snoc, find, keep, str_eq, find-some_test, find-keep-not, if◌then◌else◌, ◌++◌,
}
use cyandie_backend.Core.Errors.{ok}
use cyandie_backend.Db.Rows.{no_rows, null_string}
use cyandie_backend.Db.Social.{
  Friendship, Tables, Env, is_blocked_by_q, get_friendship_by_users_q, delete_friendship_by_users_q,
  is_block_of, is_between, new_block,
}
use cyandie_backend.Db.Social
use cyandie_backend.Uuid.{UuidCodec}
use cyandie_backend.Friends.Redis.{Redis}
use cyandie_backend.Friends.State.{FriendsService, World, blocked_key}
use cyandie_backend.Friends.Blocks.{block, unblock, is_blocked}

-- The database and the cache answer the questions of `IsBlocked`.
pub record Answers (x : Redis) (env : Env) (s : x.Store) : Type 0 where
  pub up : x.Up s
  pub connected : env.fails is_blocked_by_q ≡ false

-- Without the rows of one friendship's pair, no row of that pair is found.
find-keep_pair :
    (a b : ℕ) (f : Friendship) (fs : List Friendship)
    → is_between a b f ≡ true
    → find (is_between a b) (keep (λ g. not (is_between f.user_id f.friend_id g)) fs) ≡ none
find-keep_pair a b f [] h = refl
find-keep_pair a b f (g ∷ fs) h = ground (arith, find-keep_pair a b f fs h)

module _ (x : Redis) (u : UuidCodec) (svc : FriendsService) (env : Env) where
  -- Both texts of a request that succeeds are UUIDs.
  pub block-parsed :
      (blocker blocked reason : String) (w : World x.Store)
      → (block x u svc env blocker blocked reason w).0 ≡ ok tt
      → (bid : ℕ) × (blid : ℕ) × (u.parse blocker ≡ some bid) × (u.parse blocked ≡ some blid)
  unfolding block
  block-parsed blocker blocked reason w h = elim (Option-cases (u.parse blocker)) [
    | inl bad ↦ ground (arith, bad)
    | inr (bid, eb) ↦ elim (Option-cases (u.parse blocked)) [
      | inl bad ↦ ground (arith, bad, eb)
      | inr (blid, ed) ↦ (bid, blid, eb, ed)
    ]
  ]

  -- The two texts of a request that succeeds differ.
  pub block-distinct :
      (blocker blocked reason : String) (w : World x.Store)
      → (block x u svc env blocker blocked reason w).0 ≡ ok tt
      → str_eq blocker blocked ≡ false
  unfolding block
  block-distinct blocker blocked reason w h =
      let (bid, blid, eb, ed) = block-parsed blocker blocked reason w h in ground (arith, eb, ed)

  -- What a request that succeeds leaves of the cache and of the table of blocks.
  pub block_writes :
      (bid blid : ℕ) (blocker blocked reason : String) (w : World x.Store)
      → u.parse blocker ≡ some bid
      → u.parse blocked ≡ some blid
      → (block x u svc env blocker blocked reason w).0 ≡ ok tt
      → let w' = (block x u svc env blocker blocked reason w).1 in
        (w'.cache
          ≡ (if svc.has_rdb then x.s_add (blocked_key blocker) blocked w.cache else w.cache))
        × (w'.tables.blocks ≡ w.tables.blocks ++ new_block env bid blid (null_string reason) ∷ [])
  unfolding block
  block_writes bid blid blocker blocked reason w eb ed h =
      (ground (arith, eb, ed), ground (arith, eb, ed))

  unblock-parsed :
      (blocker blocked : String) (w : World x.Store)
      → (unblock x u svc env blocker blocked w).0 ≡ ok tt
      → (bid : ℕ) × (blid : ℕ) × (u.parse blocker ≡ some bid) × (u.parse blocked ≡ some blid)
  unfolding unblock
  unblock-parsed blocker blocked w h = elim (Option-cases (u.parse blocker)) [
    | inl bad ↦ ground (arith, bad)
    | inr (bid, eb) ↦ elim (Option-cases (u.parse blocked)) [
      | inl bad ↦ ground (arith, bad, eb)
      | inr (blid, ed) ↦ (bid, blid, eb, ed)
    ]
  ]

  -- After `Block` returns without an error, and while Redis and the lookup answer, `IsBlocked` of any later
  -- request says yes to the two texts of the first, by the cache or, without Redis, by the database.
  pub is_blocked-block :
      (later : Env) (blocker blocked reason : String) (w : World x.Store)
      → Answers x later w.cache
      → (block x u svc env blocker blocked reason w).0 ≡ ok tt
      → (is_blocked x u svc later blocker blocked (block x u svc env blocker blocked reason w).1).0
        ≡ ok true
  unfolding block is_blocked
  is_blocked-block later blocker blocked reason w a h =
      let (bid, blid, eb, ed) = block-parsed blocker blocked reason w h in
      let key = blocked_key blocker in
      ground (
        arith,
        eb,
        ed,
        x.s_is_member-s_add key blocked key blocked w.cache a.up,
        str_eq_refl key,
        str_eq_refl blocked,
        a.connected,
        find-snoc (is_block_of bid blid) w.tables.blocks
            (new_block env bid blid (null_string reason)) (ground arith),
      )

  -- After `Unblock` returns without an error, and while Redis and the lookup answer, `IsBlocked` says no to
  -- the two texts of its request, by the cache or, without Redis, by the database.
  pub is_blocked-unblock :
      (blocker blocked : String) (w : World x.Store)
      → Answers x env w.cache
      → (unblock x u svc env blocker blocked w).0 ≡ ok tt
      → (is_blocked x u svc env blocker blocked (unblock x u svc env blocker blocked w).1).0
        ≡ ok false
  unfolding unblock is_blocked
  is_blocked-unblock blocker blocked w a h =
      let (bid, blid, eb, ed) = unblock-parsed blocker blocked w h in
      let key = blocked_key blocker in
      ground (
        arith,
        eb,
        ed,
        x.s_is_member-s_rem key blocked key blocked w.cache a.up,
        str_eq_refl key,
        str_eq_refl blocked,
        a.connected,
        find-keep-not (is_block_of bid blid) w.tables.blocks,
      )

  -- After `Block` returns without an error, while the statements on friendships do not break, no
  -- friendship is left between the two users, in either direction and in any number.
  pub get_friendship-block :
      (blocker blocked reason : String) (w : World x.Store)
      → env.fails get_friendship_by_users_q ≡ false
      → env.fails delete_friendship_by_users_q ≡ false
      → (block x u svc env blocker blocked reason w).0 ≡ ok tt
      → (bid : ℕ) × (blid : ℕ) × (u.parse blocker ≡ some bid)
        × (u.parse blocked ≡ some blid)
        × (Social.get_friendship_by_users env bid blid
              (block x u svc env blocker blocked reason w).1.tables
            ≡ no_rows)
  unfolding block
  get_friendship-block blocker blocked reason w get del h =
      let (bid, blid, eb, ed) = block-parsed blocker blocked reason w h in
      (
        bid,
        blid,
        eb,
        ed,
        elim (Option-cases (find (is_between bid blid) w.tables.friendships)) [
          | inl clear ↦ ground (arith, eb, ed, clear)
          | inr (f, found) ↦ ground (
            arith,
            eb,
            ed,
            found,
            find-keep_pair bid blid f w.tables.friendships
                (find-some_test (is_between bid blid) w.tables.friendships found),
          )
        ],
      )
