-- ===== src/Friends/Requests/Lifecycle.antt =====
-- internal/friends/service.go: a friendship from the request to the lists of both users.
use cyandie_backend.Common.{
  ℕ, String, false, none, some, [], ◌∷◌, ◌++◌, ◌≡◌, ◌≢◌, arith, inl, inr, find, ◌==◌, Option-cases,
}
use cyandie_backend.Core.Errors.{ok}
use cyandie_backend.Db.Social.{
  Friendship, Env, is_between, get_friendship_by_users_q, new_friendship,
}
use cyandie_backend.Uuid.{UuidCodec}
use cyandie_backend.Friends.Redis.{Redis}
use cyandie_backend.Friends.State.{FriendsService, World, pending_status}
use cyandie_backend.Friends.Blocks.{is_blocked}
use cyandie_backend.Friends.Requests.Invariant.{is_blocked-state}
use cyandie_backend.Friends.Requests.{send_request}

module _ (x : Redis) (u : UuidCodec) (svc : FriendsService) (env : Env) where
  -- A request that succeeds stores one pending row, at the end of the table, from the first user to the
  -- second; they are not the same, the second has not blocked the first by `IsBlocked`, and no row
  -- joined them if the lookup did not break. Nothing else changes.
  pub send_request-eq-ok :
      (from to : String) (w w' : World x.Store) (f : Friendship)
      → send_request x u svc env from to w ≡ (ok f, w')
      → (a : ℕ) × (b : ℕ) × (u.parse from ≡ some a)
        × (u.parse to ≡ some b)
        × (f ≡ new_friendship env a b pending_status)
        × (w' ≡ record w {
          tables = record w.tables { friendships = w.tables.friendships ++ f ∷ [] };
        })
        × ((a == b) ≡ false)
        × ((is_blocked x u svc env to from w).0 ≡ ok false)
        × (env.fails get_friendship_by_users_q ≡ false
            → find (is_between a b) w.tables.friendships ≡ none)
  unfolding send_request
  send_request-eq-ok from to w w' f h = elim (Option-cases (u.parse from)) [
    | inl bad ↦ ground (arith, bad)
    | inr (a, ea) ↦ elim (Option-cases (u.parse to)) [
      | inl bad ↦ ground (arith, ea, bad)
      | inr (b, eb) ↦
          let same = is_blocked-state x u svc env to from w in
          (
            a,
            b,
            ea,
            eb,
            ground (arith, ea, eb, same),
            ground (arith, ea, eb, same),
            ground (arith, ea, eb, same),
            ground (arith, ea, eb, same),
            λ get. ground (arith, ea, eb, same),
          )
    ]
  ]

  -- A request that fails, for whatever reason, changes nothing.
  pub send_request_error_unchanged :
      (from to : String) (w : World x.Store)
      → ((f : Friendship) → (send_request x u svc env from to w).0 ≢ ok f)
      → (send_request x u svc env from to w).1 ≡ w
  unfolding send_request
  send_request_error_unchanged from to w h = elim (Option-cases (u.parse from)) [
    | inl bad ↦ ground (arith, bad)
    | inr (a, ea) ↦ elim (Option-cases (u.parse to)) [
      | inl bad ↦ ground (arith, ea, bad)
      | inr (b, eb) ↦ ground (
        arith,
        ea,
        eb,
        is_blocked-state x u svc env to from w,
        h (new_friendship env a b pending_status),
      )
    ]
  ]
