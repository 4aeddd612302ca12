-- ===== src/Friends/Requests/Invariant.antt =====
-- What internal/friends/service.go keeps true of the tables, over any history of its requests.
use cyandie_backend.Common.{
  ℕ, String, true, false, ◌&&◌, List, [], ◌∷◌, ◌≡◌, subst, arith, inl, inr, find, All, ◌==◌,
  Option-cases,
}
use cyandie_backend.Core.Errors.{ok}
use cyandie_backend.Db.Rows.{DbResult, row, no_rows, failed, null_string}
use cyandie_backend.Db.Social.{
  Friendship, Tables, Env, is_between, new_friendship, get_friendship_by_users_q,
}
use cyandie_backend.Db.Social
use cyandie_backend.Db.Social.Consistency.{
  IsConsistent, OnePerPair, create_friendship-IsConsistent, update_friendship_status-IsConsistent,
  delete_friendship-IsConsistent, delete_friendship_by_users-IsConsistent,
  create_block_relation-IsConsistent, delete_block_relation-IsConsistent,
}
use cyandie_backend.Uuid.{UuidCodec}
use cyandie_backend.Friends.Redis.{Redis}
use cyandie_backend.Friends.State.{FriendsService, World, pending_status, accepted_status}
use cyandie_backend.Friends.Blocks.{is_blocked, block, unblock, drop_friendship}
use cyandie_backend.Friends.Requests.{send_request, accept_request, reject_request, remove_friend}

-- A request that changes the tables.
pub data Request : Type 0 where
  sends : String → String → Request
  accepts rejects : String → Request
  removes : String → String → Request
  blocks : String → String → String → Request
  unblocks : String → String → Request

module _ (x : Redis) (u : UuidCodec) (svc : FriendsService) where
  pub serve : Env → Request → World x.Store → World x.Store
  serve env (sends from to) w = (send_request x u svc env from to w).1
  serve env (accepts id) w = (accept_request x u svc env id w).1
  serve env (rejects id) w = (reject_request x u svc env id w).1
  serve env (removes user friend) w = (remove_friend x u svc env user friend w).1
  serve env (blocks blocker blocked reason) w = (block x u svc env blocker blocked reason w).1
  serve env (unblocks blocker blocked) w = (unblock x u svc env blocker blocked w).1

  pub serve_all : List (Env × Request) → World x.Store → World x.Store
  serve_all [] w = w
  serve_all ((env, r) ∷ rs) w = serve_all rs (serve env r w)

module _ (x : Redis) (u : UuidCodec) (svc : FriendsService) (env : Env) where
  -- `IsBlocked` changes nothing.
  pub is_blocked-state : (s t : String) (w : World x.Store) → (is_blocked x u svc env s t w).1 ≡ w
  unfolding is_blocked
  is_blocked-state s t w = ground arith

  send_request-IsConsistent :
      (from to : String) (w : World x.Store)
      → env.fails get_friendship_by_users_q ≡ false
      → IsConsistent w.tables
      → IsConsistent (send_request x u svc env from to w).1.tables
  unfolding send_request
  send_request-IsConsistent from to w get c = elim (Option-cases (u.parse from)) [
    | inl bad ↦ ground (arith, bad, c)
    | inr (a, ea) ↦ elim (Option-cases (u.parse to)) [
      | inl bad ↦ ground (arith, ea, bad, c)
      | inr (b, eb) ↦ elim (Option-cases (find (is_between a b) w.tables.friendships)) [
        | inl new ↦ ground (
          arith,
          ea,
          eb,
          get,
          new,
          c,
          is_blocked-state to from w,
          create_friendship-IsConsistent env a b pending_status w.tables,
        )
        | inr (f, old) ↦ ground (arith, ea, eb, get, old, c, is_blocked-state to from w)
      ]
    ]
  ]

  accept_request-IsConsistent :
      (id : String) (w : World x.Store)
      → IsConsistent w.tables
      → IsConsistent (accept_request x u svc env id w).1.tables
  unfolding accept_request
  accept_request-IsConsistent id w c = elim (Option-cases (u.parse id)) [
    | inl bad ↦ ground (arith, bad, c)
    | inr (n, e) ↦
        ground (arith, e, update_friendship_status-IsConsistent env n accepted_status w.tables c)
  ]

  reject_request-IsConsistent :
      (id : String) (w : World x.Store)
      → IsConsistent w.tables
      → IsConsistent (reject_request x u svc env id w).1.tables
  unfolding reject_request
  reject_request-IsConsistent id w c = elim (Option-cases (u.parse id)) [
    | inl bad ↦ ground (arith, bad, c)
    | inr (n, e) ↦ ground (arith, e, delete_friendship-IsConsistent env n w.tables c)
  ]

  remove_friend-IsConsistent :
      (user friend : String) (w : World x.Store)
      → IsConsistent w.tables
      → IsConsistent (remove_friend x u svc env user friend w).1.tables
  unfolding remove_friend
  remove_friend-IsConsistent user friend w c = elim (Option-cases (u.parse user)) [
    | inl bad ↦ ground (arith, bad, c)
    | inr (a, ea) ↦ elim (Option-cases (u.parse friend)) [
      | inl bad ↦ ground (arith, ea, bad, c)
      | inr (b, eb) ↦
          ground (arith, ea, eb, delete_friendship_by_users-IsConsistent env a b w.tables c)
    ]
  ]

  unblock-IsConsistent :
      (blocker blocked : String) (w : World x.Store)
      → IsConsistent w.tables
      → IsConsistent (unblock x u svc env blocker blocked w).1.tables
  unfolding unblock
  unblock-IsConsistent blocker blocked w c = elim (Option-cases (u.parse blocker)) [
    | inl bad ↦ ground (arith, bad, c)
    | inr (a, ea) ↦ elim (Option-cases (u.parse blocked)) [
      | inl bad ↦ ground (arith, ea, bad, c)
      | inr (b, eb) ↦ ground (arith, ea, eb, delete_block_relation-IsConsistent env a b w.tables c)
    ]
  ]

  drop_friendship-IsConsistent :
      (found : DbResult Friendship) (w : World x.Store)
      → IsConsistent w.tables
      → IsConsistent (drop_friendship x u svc env found w).1.tables
  unfolding drop_friendship
  drop_friendship-IsConsistent (row f) w c =
      ground (arith, delete_friendship_by_users-IsConsistent env f.user_id f.friend_id w.tables c)
  drop_friendship-IsConsistent no_rows w c = c
  drop_friendship-IsConsistent failed w c = c

  block-IsConsistent :
      (blocker blocked reason : String) (w : World x.Store)
      → IsConsistent w.tables
      → IsConsistent (block x u svc env blocker blocked reason w).1.tables
  unfolding block
  block-IsConsistent blocker blocked reason w c = elim (Option-cases (u.parse blocker)) [
    | inl bad ↦ ground (arith, bad, c)
    | inr (a, ea) ↦ elim (Option-cases (u.parse blocked)) [
      | inl bad ↦ ground (arith, ea, bad, c)
      | inr (b, eb) ↦
          let t = (Social.create_block_relation env a b (null_string reason) w.tables).1 in
          let ct = create_block_relation-IsConsistent env a b (null_string reason) w.tables c in
          ground (
            arith,
            ea,
            eb,
            ct,
            drop_friendship-IsConsistent (Social.get_friendship_by_users env a b t)
                (record w { tables = t }) ct,
          )
    ]
  ]

  -- Every request keeps the tables consistent, if the lookup of `SendRequest` does not break.
  serve-IsConsistent :
      (r : Request) (w : World x.Store)
      → env.fails get_friendship_by_users_q ≡ false
      → IsConsistent w.tables
      → IsConsistent (serve x u svc env r w).tables
  unfolding serve
  serve-IsConsistent (sends from to) w get c = send_request-IsConsistent from to w get c
  serve-IsConsistent (accepts id) w get c = accept_request-IsConsistent id w c
  serve-IsConsistent (rejects id) w get c = reject_request-IsConsistent id w c
  serve-IsConsistent (removes user friend) w get c = remove_friend-IsConsistent user friend w c
  serve-IsConsistent (blocks blocker blocked reason) w get c =
      block-IsConsistent blocker blocked reason w c
  serve-IsConsistent (unblocks blocker blocked) w get c = unblock-IsConsistent blocker blocked w c

-- Over any history of requests, in each of which the lookup of `SendRequest` does not break, there is
-- never a friendship with oneself, a second friendship of two users, or a second block of a pair.
pub serve_all-IsConsistent :
    (x : Redis) (u : UuidCodec) (svc : FriendsService) (rs : List (Env × Request))
    (w : World x.Store)
    → All (λ r. r.0.fails get_friendship_by_users_q ≡ false) rs
    → IsConsistent w.tables
    → IsConsistent (serve_all x u svc rs w).tables
unfolding serve_all
serve_all-IsConsistent x u svc [] w get c = c
serve_all-IsConsistent x u svc ((env, r) ∷ rs) w get c =
    serve_all-IsConsistent x u svc rs (serve x u svc env r w) get.1
      (serve-IsConsistent x u svc env r w get.0 c)

-- Where the lookup of a friendship breaks and the insertion works, `SendRequest` between two users who
-- have one, and of whom the second has not blocked the first, stores a second row: the tables are no
-- longer consistent.
pub send_request_doubles :
    (x : Redis) (u : UuidCodec) (svc : FriendsService) (env : Env) (a b : ℕ) (f : Friendship)
    (w : World x.Store)
    → (a == b) ≡ false
    → (is_blocked x u svc env (u.format b) (u.format a) w).0 ≡ ok false
    → env.fails get_friendship_by_users_q ≡ true
    → env.fails Social.create_friendship_q ≡ false
    → (env.is_user a && env.is_user b) ≡ true
    → w.tables.friendships ≡ f ∷ []
    → is_between a b f ≡ true
    → ¬ IsConsistent (send_request x u svc env (u.format a) (u.format b) w).1.tables
unfolding send_request
send_request_doubles x u svc env a b f w ne free breaks works users one pair c =
    let added = new_friendship env a b pending_status in
    let stored : (send_request x u svc env (u.format a) (u.format b) w).1.tables.friendships
        ≡ f ∷ added ∷ [] =
      ground (
        arith,
        u.parse-format a,
        u.parse-format b,
        is_blocked-state x u svc env (u.format b) (u.format a) w,
      ) in
    let apart = subst OnePerPair stored c.pairs in ground (arith, apart.0.0, pair)
