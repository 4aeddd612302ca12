-- ===== src/Friends/Presence.antt =====
-- internal/friends/service.go: `SetOnline`, `SetOffline` and `GetOnlineFriends`.
pub mod Online
pub mod Notices
use cyandie_backend.Common.{
  ℕ, ◌*◌, String, Bool, true, false, ◌&&◌, Option, none, some, List, [], ◌∷◌, map, if◌then◌else◌,
  ◌==◌, ltb, keep,
}
use cyandie_backend.Core.Errors.{Result, ok, err, panicked, fail, err_internal, err_bad_request}
use cyandie_backend.Core.Exec.{Exec, pure, lift, gets, guard, modify, ◌>>=◌, ◌>>◌}
use cyandie_backend.Db.Rows.{DbResult, row, no_rows, failed}
use cyandie_backend.Db.Social.{Friendship, Env}
use cyandie_backend.Db.Social
use cyandie_backend.Uuid.{UuidCodec}
use cyandie_backend.Friends.Redis.{Redis}
use cyandie_backend.Friends.State.{
  FriendsService, World, Call, notify_online, notify_offline, online_key, row_or, rows_or_nil,
  parse_or, read_query, notify,
}

-- `5*time.Minute`, in seconds.
abbrev pub online_ttl : ℕ
online_ttl = 300

module _ (x : Redis) (u : UuidCodec) (svc : FriendsService) (env : Env) where
  -- The ids that `SetOnline` and `SetOffline` hand to the notifier: the column `friend_id` of each row.
  unfoldable pub notified_ids : List Friendship → List String
  notified_ids fs = map (λ f. u.format f.friend_id) fs

  -- `uuid.MustParse`
  abbrev pub must_parse : String → Result ℕ
  must_parse text = elim (u.parse text) [ none ↦ panicked | some id ↦ ok id ]

  -- The body of `if set && s.notifier != nil` and of its like: the friends are listed, an error is
  -- taken for no rows, and the notifier is called.
  unfoldable pub notify_friends : String → (List String → Call) → Exec (World x.Store) (Unit {0})
  unfolding Social.list_friends notified_ids
  notify_friends user_id call = do
    id ← lift (must_parse user_id)
    rows ← read_query (Social.list_friends env id)
    notify svc (call (notified_ids (rows_or_nil rows)))

  -- `SetOnline`, after the command SETNX has answered.
  unfoldable pub after_set_nx : String → String → Option Bool → Exec (World x.Store) (Unit {0})
  after_set_nx user_id username none = lift (fail err_internal "failed to set online")
  after_set_nx user_id username (some set) = do
    if set && svc.has_notifier
        then notify_friends user_id (notify_online user_id username)
        else pure tt
    modify (λ w. record w { cache = x.expire (online_key user_id) online_ttl w.cache })

  -- `SetOnline`
  unfoldable pub set_online : String → String → Exec (World x.Store) (Unit {0})
  unfolding after_set_nx
  set_online user_id username w =
      if svc.has_rdb
      then (let (set, cache) = x.set_nx (online_key user_id) username online_ttl w.cache in
          after_set_nx user_id username set (record w { cache = cache }))
      else (ok tt, w)

  -- `SetOffline`, after the command EXISTS has answered.
  unfoldable pub after_exists : String → Option ℕ → Exec (World x.Store) (Unit {0})
  after_exists user_id none = lift (fail err_internal "failed to check online")
  after_exists user_id (some exists) = do
    modify (λ w. record w { cache = x.del (online_key user_id) w.cache })
    if ltb 0 exists && svc.has_notifier
        then notify_friends user_id (notify_offline user_id)
        else pure tt

  -- `SetOffline`
  unfoldable pub set_offline : String → Exec (World x.Store) (Unit {0})
  unfolding after_exists
  set_offline user_id w =
      if svc.has_rdb
      then after_exists user_id (x.exists (online_key user_id) w.cache) w
      else (ok tt, w)

  -- The other party of a friendship of `id`, as `GetOnlineFriends` finds it.
  unfoldable pub other_party : ℕ → Friendship → String
  other_party id f = if f.friend_id == id then u.format f.user_id else u.format f.friend_id

  -- `s.rdb.Exists(ctx, key).Val() == 1`, where an error has the value 0.
  unfoldable pub is_online : x.Store → String → Bool
  is_online cache friend_id = elim (x.exists (online_key friend_id) cache) [
    | none ↦ false
    | some n ↦ n == 1
  ]

  -- The loop of `GetOnlineFriends`. With a nil client the first command panics.
  unfoldable pub online_friends : ℕ → x.Store → List Friendship → Result (List String)
  unfolding other_party is_online
  online_friends id cache [] = ok []
  online_friends id cache (f ∷ fs) =
      if svc.has_rdb then ok (keep (is_online cache) (map (other_party id) (f ∷ fs))) else panicked

  -- `GetOnlineFriends`
  unfoldable pub get_online_friends : String → Exec (World x.Store) (List String)
  unfolding Social.list_friends
  get_online_friends user_id = do
    id ← lift (parse_or u user_id "invalid user ID")
    rows ← read_query (Social.list_friends env id)
    friendships ← lift (row_or (fail err_internal "failed to list friends") rows)
    cache ← gets (λ w. w.cache)
    lift (online_friends id cache friendships)
