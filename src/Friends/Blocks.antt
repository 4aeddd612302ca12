-- ===== src/Friends/Blocks.antt =====
-- internal/friends/service.go: `Block`, `Unblock`, `IsBlocked`, `ListBlockedUsers` and
-- `LoadBlockCache`.
pub mod Roundtrip
pub mod Cache
pub mod Aliases
use cyandie_backend.Common.{
  ℕ, String, Bool, true, false, not, Option, none, some, List, [], ◌∷◌, if◌then◌else◌, str_eq,
}
use cyandie_backend.Core.Errors.{
  Result, ok, err, panicked, GoError, database, fail, err_bad_request, err_internal,
}
use cyandie_backend.Core.Exec.{Exec, pure, lift, gets, guard, modify, ◌>>=◌, ◌>>◌}
use cyandie_backend.Db.Rows.{DbResult, row, no_rows, failed, is_row, null_string}
use cyandie_backend.Db.Social.{Friendship, BlockRelation, Tables, Env}
use cyandie_backend.Db.Social
use cyandie_backend.Uuid.{UuidCodec}
use cyandie_backend.Friends.Redis.{Redis}
use cyandie_backend.Friends.State.{
  FriendsService, World, notify_blocked, blocked_key, row_or, row_or_missing, parse_or, run_query,
  read_query, notify, on_cache,
}

-- The outcome of `IsBlockedBy`: `sql.ErrNoRows` means no.
abbrev pub has_block : DbResult ℕ → Result Bool
has_block (row id) = ok true
has_block no_rows = ok false
has_block failed = fail err_internal "failed to check block relation"

module _ (x : Redis) (u : UuidCodec) where
  -- The loop of `LoadBlockCache`.
  unfoldable pub cache_blocks : List BlockRelation → x.Store → x.Store
  cache_blocks [] s = s
  cache_blocks (b ∷ bs) s =
      cache_blocks bs (x.s_add (blocked_key (u.format b.blocker_id)) (u.format b.blocked_id) s)

module _ (x : Redis) (u : UuidCodec) (svc : FriendsService) (env : Env) where
  -- The lookup in the database.
  unfoldable pub is_blocked_in_db : String → String → Exec (World x.Store) Bool
  unfolding Social.is_blocked_by
  is_blocked_in_db target_user_id by_user_id = do
    tid ← lift (parse_or u target_user_id "invalid target user id")
    bid ← lift (parse_or u by_user_id "invalid by user id")
    found ← read_query (Social.is_blocked_by env tid bid)
    lift (has_block found)

  -- The answer of the cache: `none` without Redis, or on an error.
  unfoldable pub cached_block : String → String → World x.Store → Option Bool
  cached_block target_user_id by_user_id w =
      if svc.has_rdb then x.s_is_member (blocked_key target_user_id) by_user_id w.cache else none

  -- `IsBlocked`
  unfoldable pub is_blocked : String → String → Exec (World x.Store) Bool
  unfolding is_blocked_in_db cached_block
  is_blocked target_user_id by_user_id w = elim (cached_block target_user_id by_user_id w) [
    | some is_member ↦ (ok is_member, w)
    | none ↦ is_blocked_in_db target_user_id by_user_id w
  ]

  -- What `Block` does with the friendship that it finds, if any: the result of the deletion is dropped.
  unfoldable pub drop_friendship : DbResult Friendship → Exec (World x.Store) (Unit {0})
  unfolding Social.delete_friendship_by_users
  drop_friendship (row f) = do
    deleted ← run_query (Social.delete_friendship_by_users env f.user_id f.friend_id)
    pure tt
  drop_friendship no_rows = pure tt
  drop_friendship failed = pure tt

  -- `Block`
  unfoldable pub block : String → String → String → Exec (World x.Store) (Unit {0})
  unfolding Social.create_block_relation Social.get_friendship_by_users drop_friendship
  block blocker_id blocked_id reason = do
    bid ← lift (parse_or u blocker_id "invalid blocker id")
    blid ← lift (parse_or u blocked_id "invalid blocked id")
    guard (not (str_eq blocker_id blocked_id)) (fail err_bad_request "cannot block yourself")
    created ← run_query (Social.create_block_relation env bid blid (null_string reason))
    relation ← lift (row_or (fail err_internal "failed to create block relation") created)
    existing ← read_query (Social.get_friendship_by_users env bid blid)
    drop_friendship existing
    on_cache svc (x.s_add (blocked_key blocker_id) blocked_id)
    notify svc (notify_blocked blocked_id blocker_id)

  -- `Unblock`
  unfoldable pub unblock : String → String → Exec (World x.Store) (Unit {0})
  unfolding Social.delete_block_relation
  unblock blocker_id blocked_id = do
    bid ← lift (parse_or u blocker_id "invalid blocker id")
    blid ← lift (parse_or u blocked_id "invalid blocked id")
    deleted ← run_query (Social.delete_block_relation env bid blid)
    relation ← lift (row_or (fail err_internal "failed to delete block relation") deleted)
    on_cache svc (x.s_rem (blocked_key blocker_id) blocked_id)

  -- `ListBlockedUsers`: the query's own error comes through.
  unfoldable pub list_blocked_users : String → Exec (World x.Store) (List BlockRelation)
  unfolding Social.list_blocked_users
  list_blocked_users user_id = do
    uid ← lift (parse_or u user_id "invalid user id")
    rows ← read_query (Social.list_blocked_users env uid)
    lift (row_or (err database) rows)

  -- `LoadBlockCache`
  unfoldable pub load_block_cache : Exec (World x.Store) (Unit {0})
  unfolding Social.list_all_block_relations cache_blocks
  load_block_cache w =
      if svc.has_rdb
      then elim (Social.list_all_block_relations env w.tables) [
        | row bs ↦ (ok tt, record w { cache = cache_blocks x u bs w.cache })
        | no_rows ↦ (err database, w)
        | failed ↦ (err database, w)
      ]
      else (ok tt, w)
