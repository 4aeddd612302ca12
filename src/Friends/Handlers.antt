-- ===== src/Friends/Handlers.antt =====
-- internal/friends/handler.go: `FriendsHandler`. A body that does not decode is none.
pub mod Errors
use cyandie_backend.Common.{
  ℕ, String, Bool, Option, none, some, List, ◌&&◌, if◌then◌else◌, str_eq, ltb, leb,
}
use cyandie_backend.Common.Int.{ℤ, pos, negsuc}
use cyandie_backend.Core.Errors.{Result, ok, err, panicked}
use cyandie_backend.Core.Http.{
  Response, sends, sends_error, panics, Handler, respond, respond_status, with_body, finish,
}
use cyandie_backend.Core.Errors.{write_app_error}
use cyandie_backend.Db.Social.{Friendship, BlockRelation, Env}
use cyandie_backend.Uuid.{UuidCodec}
use cyandie_backend.Friends.Redis.{Redis}
use cyandie_backend.Friends.State.{FriendsService, World}
use cyandie_backend.Friends.Blocks.{block, unblock, list_blocked_users}
use cyandie_backend.Friends.Requests.{
  send_request, accept_request, reject_request, list_friends, list_pending_requests, remove_friend,
  list_recent_contacts,
}
use cyandie_backend.Friends.Presence.{get_online_friends}

-- The requests of `Routes`, with what their handlers read of them.
pub data FriendsRoute : Type 0 where
  post_request : Option String → FriendsRoute
  put_accept : String → FriendsRoute
  delete_reject : String → FriendsRoute
  post_block : Option (String × String) → FriendsRoute
  delete_block : String → FriendsRoute
  get_blocked : FriendsRoute
  delete_friend : String → FriendsRoute
  get_recent : String → FriendsRoute
  get_friends : FriendsRoute
  get_pending : FriendsRoute
  get_online : FriendsRoute

-- The data of the responses.
pub data FriendsData : Type 0 where
  friendship : Friendship → FriendsData
  friendships : List Friendship → FriendsData
  blocked : List BlockRelation → FriendsData
  ids : List String → FriendsData
  status : String → FriendsData

abbrev pub respond_data {ℓ} :
    {A : Type ℓ} → String → ℕ → (A → FriendsData) → Result A → Response FriendsData
respond_data id code f (ok a) = sends code (f a)
respond_data id code f (err e) = sends_error (write_app_error id e)
respond_data id code f panicked = panics

-- The limit of `ListRecentContacts`, given `strconv.Atoi`.
abbrev pub limit_of : Option ℤ → ℕ
limit_of none = 20
limit_of (some (negsuc n)) = 20
limit_of (some (pos n)) = if ltb 0 n && leb n 100 then n else 20

abbrev pub recent_limit : (String → Option ℤ) → String → ℕ
recent_limit atoi text = if str_eq text "" then 20 else limit_of (atoi text)

module _ (x : Redis) (u : UuidCodec) (svc : FriendsService) (env : Env)
    (atoi : String → Option ℤ) where
  -- The handlers, given the ID of the request, the user of the context and the Unix time.
  unfoldable pub serve_friends :
      String → String → ℕ → FriendsRoute → Handler (World x.Store) FriendsData
  serve_friends id user now (post_request body) =
      with_body body
        λ to. finish (respond_data id 201 friendship) (send_request x u svc env user to)
  serve_friends id user now (put_accept f) =
      finish (respond_data id 200 friendship) (accept_request x u svc env f)
  serve_friends id user now (delete_reject f) =
      finish (respond_data id 200 λ done. status "rejected") (reject_request x u svc env f)
  serve_friends id user now (post_block body) =
      with_body body
        λ (to, reason). finish (respond_status id 204) (block x u svc env user to reason)
  serve_friends id user now (delete_block to) =
      finish (respond_status id 204) (unblock x u svc env user to)
  serve_friends id user now get_blocked =
      finish (respond_data id 200 blocked) (list_blocked_users x u svc env user)
  serve_friends id user now (delete_friend to) =
      finish (respond_status id 204) (remove_friend x u svc env user to)
  serve_friends id user now (get_recent limit) =
      finish (respond_data id 200 ids)
        (list_recent_contacts x u svc env now user (recent_limit atoi limit))
  serve_friends id user now get_friends =
      finish (respond_data id 200 friendships) (list_friends x u svc env user)
  serve_friends id user now get_pending =
      finish (respond_data id 200 friendships) (list_pending_requests x u svc env user)
  serve_friends id user now get_online =
      finish (respond_data id 200 ids) (get_online_friends x u svc env user)
