-- ===== src/Friends/Presence/Online.antt =====
-- `GetOnlineFriends` of internal/friends/service.go against its description.
use cyandie_backend.Common.{
  ℕ, String, Bool, true, false, ◌&&◌, ◌||◌, some, List, [], ◌∷◌, map, ◌≡◌, refl, arith, str_eq,
  str_eq_iff, ◌==◌, any, any-keep, any-map, keep, ◌∙◌,
}
use cyandie_backend.Core.Errors.{ok}
use cyandie_backend.Db.Rows.{order_desc, any-order_desc}
use cyandie_backend.Db.Social.{Friendship, Env, is_between, list_friends_q}
use cyandie_backend.Uuid.{UuidCodec}
use cyandie_backend.Friends.Redis.{Redis}
use cyandie_backend.Friends.State.{FriendsService, World, accepted_status}
use cyandie_backend.Friends.Blocks.Cache.{str_eq-format}
use cyandie_backend.Friends.Presence.{get_online_friends, online_friends, other_party, is_online}

-- An accepted friendship joins the two users.
abbrev pub are_friends : ℕ → ℕ → List Friendship → Bool
are_friends a b = any (λ f. is_between a b f && str_eq f.status accepted_status)

abbrev pub is_friend_row : ℕ → Friendship → Bool
is_friend_row id f = (f.user_id == id || f.friend_id == id) && str_eq f.status accepted_status

module _ (x : Redis) (u : UuidCodec) (svc : FriendsService) (env : Env) where
  -- One row's part in the answer for `v`.
  row_shows :
      (id v : ℕ) (cache : x.Store) (f : Friendship)
      → (v == id) ≡ false
      → (is_friend_row id f
          && (is_online x u svc env cache (other_party x u svc env id f)
              && str_eq (u.format v) (other_party x u svc env id f)))
        ≡ (is_online x u svc env cache (u.format v)
            && (is_between id v f && str_eq f.status accepted_status))
  unfolding other_party
  row_shows id v cache f ne = ground (
    arith,
    str_eq-format u v f.user_id,
    str_eq-format u v f.friend_id,
    str_eq_iff (u.format v) (u.format f.user_id),
    str_eq_iff (u.format v) (u.format f.friend_id),
  )

  rows_show :
      (id v : ℕ) (cache : x.Store) (fs : List Friendship)
      → (v == id) ≡ false
      → any
          (λ f.
            is_friend_row id f
            && (is_online x u svc env cache (other_party x u svc env id f)
                && str_eq (u.format v) (other_party x u svc env id f)))
          fs
        ≡ (is_online x u svc env cache (u.format v) && are_friends id v fs)
  rows_show id v cache [] ne = ground arith
  rows_show id v cache (f ∷ fs) ne =
      ground (arith, row_shows id v cache f ne, rows_show id v cache fs ne)

  online_friends_rdb :
      (id : ℕ) (cache : x.Store) (fs : List Friendship)
      → svc.has_rdb ≡ true
      → online_friends x u svc env id cache fs
        ≡ ok (keep (is_online x u svc env cache) (map (other_party x u svc env id) fs))
  unfolding online_friends
  online_friends_rdb id cache [] rdb = refl
  online_friends_rdb id cache (f ∷ fs) rdb = rw rdb

  -- The answer of `GetOnlineFriends` names another user exactly when that user is online and an accepted
  -- friendship joins the two, whoever of them sent the request. Redis is present and the query works.
  pub get_online_friends_lem :
      (user_id : String) (id v : ℕ) (w : World x.Store)
      → svc.has_rdb ≡ true
      → env.fails list_friends_q ≡ false
      → u.parse user_id ≡ some id
      → (v == id) ≡ false
      → (ids : List String) × (get_online_friends x u svc env user_id w ≡ (ok ids, w))
        × (any (str_eq (u.format v)) ids
            ≡ (is_online x u svc env w.cache (u.format v) && are_friends id v w.tables.friendships))
  unfolding get_online_friends
  get_online_friends_lem user_id id v w rdb lists parsed ne =
      let key = λ (f : Friendship). f.updated_at in
      let rows = order_desc key (keep (is_friend_row id) w.tables.friendships) in
      (
        keep (is_online x u svc env w.cache) (map (other_party x u svc env id) rows),
        ground (arith, parsed, online_friends_rdb id w.cache rows rdb),
        any-keep (str_eq (u.format v)) (is_online x u svc env w.cache)
              (map (other_party x u svc env id) rows)
            ∙ any-map _ (other_party x u svc env id) rows
            ∙ any-order_desc _ key (keep (is_friend_row id) w.tables.friendships)
            ∙ any-keep _ (is_friend_row id) w.tables.friendships
            ∙ rows_show id v w.cache w.tables.friendships ne,
      )
