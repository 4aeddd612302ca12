-- ===== src/Friends/Presence/Notices.antt =====
-- `SetOnline` and `SetOffline` of internal/friends/service.go: whom the notifier is told of, and when.
use cyandie_backend.Common.{
  ℕ, String, true, false, ◌&&◌, some, List, [], ◌∷◌, ◌++◌, ◌≡◌, refl, arith, if◌then◌else◌, str_eq,
  str_eq_refl, ◌==◌, ltb, any, any-keep, any-map, keep, ◌∙◌,
}
use cyandie_backend.Core.Errors.{ok}
use cyandie_backend.Db.Rows.{order_desc, any-order_desc}
use cyandie_backend.Db.Social.{Friendship, Env, list_friends_q}
use cyandie_backend.Db.Social
use cyandie_backend.Uuid.{UuidCodec}
use cyandie_backend.Friends.Redis.{Redis}
use cyandie_backend.Friends.State.{
  FriendsService, World, Call, notify_online, notify_offline, online_key, rows_or_nil,
}
use cyandie_backend.Friends.Presence.Online.{is_friend_row, are_friends}
use cyandie_backend.Friends.Blocks.Cache.{str_eq-format}
use cyandie_backend.Friends.Presence.{
  set_online, set_offline, notify_friends, notified_ids, online_ttl,
}

module _ (x : Redis) (u : UuidCodec) (svc : FriendsService) (env : Env) where
  -- One notification: the state after it.
  notify_friends_lem :
      (user_id : String) (id : ℕ) (call : List String → Call) (w : World x.Store)
      → u.parse user_id ≡ some id
      → svc.has_notifier ≡ true
      → notify_friends x u svc env user_id call w ≡ (
        ok tt,
        record w {
          calls =
              w.calls
              ++ call (notified_ids x u svc env (rows_or_nil (Social.list_friends env id w.tables)))
                ∷ [];
        },
      )
  unfolding notify_friends
  notify_friends_lem user_id id call w parsed has = ground (arith, parsed)

  -- While Redis answers and the notifier is there, a user who was offline comes online: the notifier is
  -- called once more, with the rows of `ListFriends`.
  pub set_online_first :
      (user_id username : String) (id : ℕ) (w : World x.Store)
      → svc.has_rdb ≡ true
      → svc.has_notifier ≡ true
      → u.parse user_id ≡ some id
      → x.Up w.cache
      → x.exists (online_key user_id) w.cache ≡ some 0
      → (set_online x u svc env user_id username w).1.calls
        ≡ w.calls
          ++ notify_online user_id username
              (notified_ids x u svc env (rows_or_nil (Social.list_friends env id w.tables)))
            ∷ []
  unfolding set_online
  set_online_first user_id username id w rdb has parsed up off =
      let key = online_key user_id in
      let set = x.set_nx-new key username online_ttl w.cache up off in
      ground (
        arith,
        set,
        notify_friends_lem user_id id (notify_online user_id username)
            (record w { cache = (x.set_nx key username online_ttl w.cache).1 }) parsed has,
      )

  notify_friends-cache :
      (user_id : String) (call : List String → Call) (w : World x.Store)
      → (notify_friends x u svc env user_id call w).1.cache ≡ w.cache
  unfolding notify_friends
  notify_friends-cache user_id call w = ground arith

  -- After `SetOnline` the user's key stands, whatever became of the notification.
  set_online-exists :
      (user_id username : String) (w : World x.Store)
      → x.Up w.cache
      → svc.has_rdb ≡ true
      → let cache = (set_online x u svc env user_id username w).1.cache in
        (x.exists (online_key user_id) cache ≡ some 1) × x.Up cache
  unfolding set_online
  set_online-exists user_id username w up rdb =
      let key = online_key user_id in
      let s = (x.set_nx key username online_ttl w.cache).1 in
      let up' = x.set_nx-Up key username online_ttl w.cache up in
      let w' : World x.Store = record w { cache = s } in
      let same = notify_friends-cache user_id (notify_online user_id username) w' in
      (
        ground (
          arith,
          x.exists-set_nx key username online_ttl w.cache up,
          x.exists-expire key key online_ttl s up' (omega arith),
          same,
        ),
        ground (arith, up', x.expire-Up key online_ttl s up', same),
      )

  -- Where SETNX finds the key, nobody is notified.
  quiet :
      (user_id username : String) (w : World x.Store)
      → svc.has_rdb ≡ true
      → (x.set_nx (online_key user_id) username online_ttl w.cache).0 ≡ some false
      → (set_online x u svc env user_id username w).1.calls ≡ w.calls
  unfolding set_online
  quiet user_id username w rdb old = ground arith

  -- After a `SetOnline` while Redis answers, a further one of the same user, as each heartbeat makes,
  -- notifies nobody.
  pub set_online_again :
      (user_id username later : String) (w : World x.Store)
      → x.Up w.cache
      → svc.has_rdb ≡ true
      → let w' = (set_online x u svc env user_id username w).1 in
        (set_online x u svc env user_id later w').1.calls ≡ w'.calls
  unfolding set_online
  set_online_again user_id username later w up rdb =
      let (stands, up') = set_online-exists user_id username w up rdb in
      let w' = (set_online x u svc env user_id username w).1 in
      quiet user_id later w' rdb
        (x.set_nx-old (online_key user_id) later online_ttl w'.cache up' stands)

  -- `SetOffline` while Redis answers and the notifier is there: the key is gone afterwards, and the notifier is called, with the
  -- rows of `ListFriends`, exactly when the key was there.
  pub set_offline_lem :
      (user_id : String) (id n : ℕ) (w : World x.Store)
      → svc.has_rdb ≡ true
      → svc.has_notifier ≡ true
      → u.parse user_id ≡ some id
      → x.Up w.cache
      → x.exists (online_key user_id) w.cache ≡ some n
      → let w' = (set_offline x u svc env user_id w).1 in
        (x.exists (online_key user_id) w'.cache ≡ some 0)
        × (w'.calls ≡ (
            if ltb 0 n
            then w.calls
              ++ notify_offline user_id
                  (notified_ids x u svc env (rows_or_nil (Social.list_friends env id w.tables)))
                ∷ []
            else w.calls))
  unfolding set_offline
  set_offline_lem user_id id n w rdb has parsed up found =
      let key = online_key user_id in
      let w' : World x.Store = record w { cache = x.del key w.cache } in
      let told = notify_friends_lem user_id id (notify_offline user_id) w' parsed has in
      let gone = x.exists-del key key w.cache up in
      (ground (arith, found, told, gone, str_eq_refl key), ground (arith, found, told))

  -- Who is told: `v` is among the notified ids exactly when an accepted row of the user has `v` in its
  -- column `friend_id`.
  pub notified_ids_lem :
      (id v : ℕ) (w : World x.Store)
      → env.fails list_friends_q ≡ false
      → any
          (str_eq (u.format v))
          (notified_ids x u svc env (rows_or_nil (Social.list_friends env id w.tables)))
        ≡ any (λ f. is_friend_row id f && f.friend_id == v) w.tables.friendships
  unfolding notified_ids Social.list_friends
  notified_ids_lem id v w lists =
      let key = λ (f : Friendship). f.updated_at in
      let rows = order_desc key (keep (is_friend_row id) w.tables.friendships) in
      rw lists (
        any-map (str_eq (u.format v)) (λ (f : Friendship). u.format f.friend_id) rows
        ∙ any-order_desc _ key (keep (is_friend_row id) w.tables.friendships)
        ∙ any-keep _ (is_friend_row id) w.tables.friendships
        ∙ columns w.tables.friendships)
    where
      columns :
          (fs : List Friendship)
          → any (λ f. is_friend_row id f && str_eq (u.format v) (u.format f.friend_id)) fs
            ≡ any (λ f. is_friend_row id f && f.friend_id == v) fs
      columns [] = refl
      columns (f ∷ fs) = ground (arith, columns fs, str_eq-format u v f.friend_id)

  -- While the query works, a user with a friend, whose friendships all came from requests of others, does
  -- not have that friend among the notified ids, but has their own id there.
  pub notified_ids_self :
      (id v : ℕ) (w : World x.Store)
      → env.fails list_friends_q ≡ false
      → (v == id) ≡ false
      → any (λ f. f.user_id == id) w.tables.friendships ≡ false
      → are_friends id v w.tables.friendships ≡ true
      → let ids = notified_ids x u svc env (rows_or_nil (Social.list_friends env id w.tables)) in
        (any (str_eq (u.format v)) ids ≡ false) × (any (str_eq (u.format id)) ids ≡ true)
  notified_ids_self id v w lists ne received friends = (
    notified_ids_lem id v w lists ∙ none_told w.tables.friendships received,
    notified_ids_lem id id w lists ∙ self_told w.tables.friendships received friends,
  )
    where
      none_told :
          (fs : List Friendship)
          → any (λ f. f.user_id == id) fs ≡ false
          → any (λ f. is_friend_row id f && f.friend_id == v) fs ≡ false
      none_told [] h = refl
      none_told (f ∷ fs) h = ground (arith, none_told fs)

      self_told :
          (fs : List Friendship)
          → any (λ f. f.user_id == id) fs ≡ false
          → are_friends id v fs ≡ true
          → any (λ f. is_friend_row id f && f.friend_id == id) fs ≡ true
      self_told [] h k = cc
      self_told (f ∷ fs) h k = ground (arith, self_told fs)
