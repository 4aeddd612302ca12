-- ===== src/Friends/Requests.antt =====
-- internal/friends/service.go: requests, friendships and recent contacts.
pub mod Invariant
pub mod Lifecycle
pub mod Acceptance
use cyandie_backend.Common.{
  ℕ, ◌*◌, ◌-◌, String, Bool, true, false, not, Option, none, some, List, [], ◌∷◌, if◌then◌else◌,
  ◌==◌,
}
use cyandie_backend.Core.Errors.{
  Result, ok, err, fail, err_bad_request, err_forbidden, err_conflict, err_internal, err_not_found,
  err_not_implemented,
}
use cyandie_backend.Core.Exec.{Exec, pure, lift, gets, guard, modify, ◌>>=◌, ◌>>◌}
use cyandie_backend.Db.Rows.{DbResult, is_row}
use cyandie_backend.Db.Social.{Friendship, Env}
use cyandie_backend.Db.Social
use cyandie_backend.Uuid.{UuidCodec}
use cyandie_backend.Friends.Redis.{Redis}
use cyandie_backend.Friends.State.{
  FriendsService, World, notify_friend_removed, pending_status, accepted_status, recent_key, row_or,
  row_or_missing, parse_or, run_query, read_query, notify,
}
use cyandie_backend.Friends.Blocks.{is_blocked}

-- `PlatformFriendInfo`
pub record PlatformFriendInfo : Type 0 where
  pub platform_user_id : String
  pub username : String

module _ (x : Redis) (u : UuidCodec) (svc : FriendsService) (env : Env) where
  -- `SendRequest`
  unfoldable pub send_request : String → String → Exec (World x.Store) Friendship
  unfolding Social.get_friendship_by_users Social.create_friendship
  send_request from_user_id to_user_id = do
    from ← lift (parse_or u from_user_id "invalid from user ID")
    to ← lift (parse_or u to_user_id "invalid to user ID")
    guard (not (from == to)) (fail err_bad_request "cannot send friend request to yourself")
    blocked ← is_blocked x u svc env to_user_id from_user_id
    guard (not blocked) (fail err_forbidden "you are blocked by this user")
    existing ← read_query (Social.get_friendship_by_users env from to)
    guard (not (is_row existing)) (fail err_conflict "friendship already exists")
    created ← run_query (Social.create_friendship env from to pending_status)
    lift (row_or (fail err_internal "failed to create friend request") created)

  -- `AcceptRequest`
  unfoldable pub accept_request : String → Exec (World x.Store) Friendship
  unfolding Social.update_friendship_status
  accept_request friendship_id = do
    id ← lift (parse_or u friendship_id "invalid friendship ID")
    updated ← run_query (Social.update_friendship_status env id accepted_status)
    lift (
        row_or_missing (fail err_not_found "friend request not found")
          (fail err_internal "failed to accept friend request") updated)

  -- `RejectRequest`
  unfoldable pub reject_request : String → Exec (World x.Store) (Unit {0})
  unfolding Social.delete_friendship
  reject_request friendship_id = do
    id ← lift (parse_or u friendship_id "invalid friendship ID")
    deleted ← run_query (Social.delete_friendship env id)
    f ← lift (
        row_or_missing (fail err_not_found "friend request not found")
          (fail err_internal "failed to reject friend request") deleted)
    pure tt

  -- `ListFriends`
  unfoldable pub list_friends : String → Exec (World x.Store) (List Friendship)
  unfolding Social.list_friends
  list_friends user_id = do
    id ← lift (parse_or u user_id "invalid user ID")
    rows ← read_query (Social.list_friends env id)
    lift (row_or (fail err_internal "failed to list friends") rows)

  -- `ListPendingRequests`
  unfoldable pub list_pending_requests : String → Exec (World x.Store) (List Friendship)
  unfolding Social.list_pending_requests
  list_pending_requests user_id = do
    id ← lift (parse_or u user_id "invalid user ID")
    rows ← read_query (Social.list_pending_requests env id)
    lift (row_or (fail err_internal "failed to list pending requests") rows)

  -- `RemoveFriend`
  unfoldable pub remove_friend : String → String → Exec (World x.Store) (Unit {0})
  unfolding Social.delete_friendship_by_users
  remove_friend user_id friend_id = do
    uid ← lift (parse_or u user_id "invalid user id")
    fid ← lift (parse_or u friend_id "invalid friend id")
    deleted ← run_query (Social.delete_friendship_by_users env uid fid)
    f ← lift (row_or (fail err_internal "failed to delete friendship") deleted)
    notify svc (notify_friend_removed friend_id user_id)

  -- `ListRecentContacts` at a Unix time past 30 days, so that the cutoff is no negative number. Whole
  -- seconds are exact as float64.
  unfoldable pub list_recent_contacts : ℕ → String → ℕ → Exec (World x.Store) (List String)
  list_recent_contacts now user_id limit w =
      if svc.has_rdb
      then (let cache =
            x.z_rem_range_by_score (recent_key user_id) (now - 30 * 24 * 3600) w.cache in
          elim (x.z_rev_range_by_score (recent_key user_id) now limit cache) [
            | none ↦ (fail err_internal "failed to get recent contacts", record w { cache = cache })
            | some results ↦ (ok results, record w { cache = cache })
          ])
      else (fail err_internal "redis not available", w)

  -- `ImportPlatformFriends`
  unfoldable pub import_platform_friends :
      String → String → List PlatformFriendInfo → Exec (World x.Store) (Unit {0})
  import_platform_friends user_id platform infos w =
      (fail err_not_implemented "platform friend import is not yet available", w)
