-- ===== src/Friends/Handlers/Errors.antt =====
-- The responses of internal/friends/handler.go that are no successes.
use cyandie_backend.Common.{
  ℕ, String, Bool, true, false, not, Option, none, some, List, [], ◌∷◌, ◌≡◌, ◌≢◌, refl, sym, ap,
  ◌∙◌, arith, ◌⊎◌, inl, inr, Option-cases, Bool-cases, false≢true, find, keep, map, ◌==◌, any,
  str_eq, ◌&&◌, ◌||◌,
}
use cyandie_backend.Common.Int.{ℤ}
use cyandie_backend.Core.Errors.{Result, Result-cases, ok, err, panicked, GoError}
use cyandie_backend.Core.Exec.{Exec}
use cyandie_backend.Core.Http.{Response, is_success, finish, respond_status}
use cyandie_backend.Db.Social.{
  Env, Friendship, set_status, update_friendship_status_q, delete_friendship_q,
  delete_friendship_by_users_q, create_block_relation_q, delete_block_relation_q, is_between,
  is_block_of,
}
use cyandie_backend.Db.Social
use cyandie_backend.Uuid.{UuidCodec}
use cyandie_backend.Friends.Redis.{Redis}
use cyandie_backend.Friends.State.{FriendsService, World, accepted_status}
use cyandie_backend.Friends.Blocks.{block, unblock, list_blocked_users, drop_friendship}
use cyandie_backend.Friends.Requests.{
  send_request, accept_request, reject_request, list_friends, list_pending_requests, remove_friend,
  list_recent_contacts,
}
use cyandie_backend.Friends.Requests.Lifecycle.{send_request_error_unchanged}
use cyandie_backend.Friends.Presence.{get_online_friends}
use cyandie_backend.Friends.Handlers.{
  FriendsRoute, FriendsData, respond_data, serve_friends, recent_limit, post_request, put_accept,
  delete_reject, post_block, delete_block, get_blocked, delete_friend, get_recent, get_friends,
  get_pending, get_online, friendship, friendships, blocked, ids, status,
}

keep-none {ℓ} :
    {A : Type ℓ} (p : A → Bool) (xs : List A) → find p xs ≡ none → keep (λ x. not (p x)) xs ≡ xs
keep-none p [] h = refl
keep-none p (x ∷ xs) h = elim (Bool-cases (p x)) [
  | inl hit ↦ ground (arith, hit, h)
  | inr miss ↦ rw miss (ap (◌∷◌ x) (keep-none p xs (ground (arith, miss, h))))
]

set_status-none :
    (id : ℕ) (text : String) (now : ℕ) (fs : List Friendship)
    → find (λ f. f.id == id) (map (set_status id text now) fs) ≡ none
    → map (set_status id text now) fs ≡ fs
set_status-none id text now [] h = refl
set_status-none id text now (f ∷ fs) h = elim (Bool-cases (f.id == id)) [
  | inl hit ↦ ground (arith, hit, h)
  | inr miss ↦ rw miss (ap (◌∷◌ f) (set_status-none id text now fs (ground (arith, miss, h))))
]

module _ {S A : Type 0} where
  -- The call succeeds or leaves the tables as they are.
  abbrev pub Spares : Exec (World S) A → World S → Type 0
  Spares m w = ((a : A) × ((m w).0 ≡ ok a)) ⊎ ((m w).1.tables ≡ w.tables)

  finish-Spares :
      (f : Result A → Response FriendsData) (m : Exec (World S) A) (w : World S)
      → ((a : A) → is_success (f (ok a)) ≡ true)
      → Spares m w
      → is_success (finish f m w).0 ≡ false
      → (finish f m w).1.tables ≡ w.tables
  finish-Spares f m w good (inr kept) h = kept
  finish-Spares f m w good (inl (a, done)) h =
      absurd (false≢true (sym h ∙ ap (λ r. is_success (f r)) done ∙ good a))

module _ (x : Redis) (u : UuidCodec) (svc : FriendsService) (env : Env) where
  accept_request-Spares : (f : String) (w : World x.Store) → Spares (accept_request x u svc env f) w
  unfolding accept_request Social.update_friendship_status
  accept_request-Spares f w = elim (Option-cases (u.parse f)) [
    | inl bad ↦ inr (ground (arith, bad))
    | inr (id, parsed) ↦ elim (Bool-cases (env.fails update_friendship_status_q)) [
      | inl broken ↦ inr (ground (arith, parsed, broken))
      | inr works ↦
          let after = map (set_status id accepted_status env.now) w.tables.friendships in
          elim (Option-cases (find (λ g. g.id == id) after)) [
            | inr (g, found) ↦ inl (g, ground (arith, parsed, works, found))
            | inl absent ↦ inr (
                ground (
                  arith,
                  parsed,
                  works,
                  absent,
                  set_status-none id accepted_status env.now w.tables.friendships absent,
                ))
          ]
    ]
  ]

  reject_request-Spares : (f : String) (w : World x.Store) → Spares (reject_request x u svc env f) w
  unfolding reject_request Social.delete_friendship
  reject_request-Spares f w = elim (Option-cases (u.parse f)) [
    | inl bad ↦ inr (ground (arith, bad))
    | inr (id, parsed) ↦ elim (Bool-cases (env.fails delete_friendship_q)) [
      | inl broken ↦ inr (ground (arith, parsed, broken))
      | inr works ↦ elim (Option-cases (find (λ g. g.id == id) w.tables.friendships)) [
        | inr (g, found) ↦ inl (tt, ground (arith, parsed, works, found))
        | inl absent ↦ inr (
            ground (
              arith,
              parsed,
              works,
              absent,
              keep-none (λ g. g.id == id) w.tables.friendships absent,
            ))
      ]
    ]
  ]

  remove_friend-Spares :
      (user f : String) (w : World x.Store) → Spares (remove_friend x u svc env user f) w
  unfolding remove_friend Social.delete_friendship_by_users
  remove_friend-Spares user f w = elim (Option-cases (u.parse user)) [
    | inl bad ↦ inr (ground (arith, bad))
    | inr (a, ea) ↦ elim (Option-cases (u.parse f)) [
      | inl bad ↦ inr (ground (arith, ea, bad))
      | inr (b, eb) ↦ elim (Bool-cases (env.fails delete_friendship_by_users_q)) [
        | inl broken ↦ inr (ground (arith, ea, eb, broken))
        | inr works ↦ elim (Option-cases (find (is_between a b) w.tables.friendships)) [
          | inr (g, found) ↦ inl (tt, ground (arith, ea, eb, works, found))
          | inl absent ↦ inr (
              ground (
                arith,
                ea,
                eb,
                works,
                absent,
                keep-none (is_between a b) w.tables.friendships absent,
              ))
        ]
      ]
    ]
  ]

  unblock-Spares : (user f : String) (w : World x.Store) → Spares (unblock x u svc env user f) w
  unfolding unblock Social.delete_block_relation
  unblock-Spares user f w = elim (Option-cases (u.parse user)) [
    | inl bad ↦ inr (ground (arith, bad))
    | inr (a, ea) ↦ elim (Option-cases (u.parse f)) [
      | inl bad ↦ inr (ground (arith, ea, bad))
      | inr (b, eb) ↦ elim (Bool-cases (env.fails delete_block_relation_q)) [
        | inl broken ↦ inr (ground (arith, ea, eb, broken))
        | inr works ↦ elim (Option-cases (find (is_block_of a b) w.tables.blocks)) [
          | inr (g, found) ↦ inl (tt, ground (arith, ea, eb, works, found))
          | inl absent ↦ inr (
              ground
                (arith, ea, eb, works, absent, keep-none (is_block_of a b) w.tables.blocks absent))
        ]
      ]
    ]
  ]

  send_request-Spares :
      (user f : String) (w : World x.Store) → Spares (send_request x u svc env user f) w
  send_request-Spares user f w = elim (Result-cases (send_request x u svc env user f w).0) [
    | inl done ↦ inl done
    | inr other ↦
        inr (ap (λ v. v.tables) (send_request_error_unchanged x u svc env user f w (differs other)))
  ]
    where
      differs :
          ((e : GoError) × ((send_request x u svc env user f w).0 ≡ err e))
            ⊎ ((send_request x u svc env user f w).0 ≡ panicked)
          → (g : Friendship) → (send_request x u svc env user f w).0 ≢ ok g
      differs (inl (e, failed)) g h = ground (arith, failed, h)
      differs (inr failed) g h = ground (arith, failed, h)

  block-Spares :
      (user f reason : String) (w : World x.Store) → Spares (block x u svc env user f reason) w
  unfolding block Social.create_block_relation Social.get_friendship_by_users drop_friendship
  block-Spares user f reason w = elim (Option-cases (u.parse user)) [
    | inl bad ↦ inr (ground (arith, bad))
    | inr (a, ea) ↦ elim (Option-cases (u.parse f)) [
      | inl bad ↦ inr (ground (arith, ea, bad))
      | inr (b, eb) ↦ elim (Bool-cases (str_eq user f)) [
        | inl self ↦ inr (ground (arith, ea, eb, self))
        | inr apart ↦
            elim (Bool-cases (
              env.fails create_block_relation_q
              || not (env.is_user a && env.is_user b)
              || any (is_block_of a b) w.tables.blocks)) [
                | inl refused ↦ inr (ground (arith, ea, eb, apart, refused))
                | inr made ↦ inl (tt, ground (arith, ea, eb, apart, made))
              ]
      ]
    ]
  ]

  list_friends-Spares :
      (user : String) (w : World x.Store) → Spares (list_friends x u svc env user) w
  unfolding list_friends
  list_friends-Spares user w = inr (ground arith)

  list_pending_requests-Spares :
      (user : String) (w : World x.Store) → Spares (list_pending_requests x u svc env user) w
  unfolding list_pending_requests
  list_pending_requests-Spares user w = inr (ground arith)

  list_blocked_users-Spares :
      (user : String) (w : World x.Store) → Spares (list_blocked_users x u svc env user) w
  unfolding list_blocked_users
  list_blocked_users-Spares user w = inr (ground arith)

  get_online_friends-Spares :
      (user : String) (w : World x.Store) → Spares (get_online_friends x u svc env user) w
  unfolding get_online_friends
  get_online_friends-Spares user w = inr (ground arith)

  list_recent_contacts-Spares :
      (now : ℕ) (user : String) (limit : ℕ) (w : World x.Store)
      → Spares (list_recent_contacts x u svc env now user limit) w
  unfolding list_recent_contacts
  list_recent_contacts-Spares now user limit w = inr (ground arith)

  -- Whatever request a handler of internal/friends answers with an error or not at all, after any of its
  -- statements, the tables of friendships and blocks are as they were.
  pub serve_friends_error_unchanged :
      (atoi : String → Option ℤ) (id user : String) (now : ℕ) (route : FriendsRoute)
      (w : World x.Store)
      → is_success (serve_friends x u svc env atoi id user now route w).0 ≡ false
      → (serve_friends x u svc env atoi id user now route w).1.tables ≡ w.tables
  unfolding serve_friends
  serve_friends_error_unchanged atoi id user now (post_request none) w h = refl
  serve_friends_error_unchanged atoi id user now (post_request (some to)) w h =
      finish-Spares (respond_data id 201 friendship) (send_request x u svc env user to) w
        (λ a. refl) (send_request-Spares user to w) h
  serve_friends_error_unchanged atoi id user now (put_accept f) w h =
      finish-Spares (respond_data id 200 friendship) (accept_request x u svc env f) w (λ a. refl)
        (accept_request-Spares f w) h
  serve_friends_error_unchanged atoi id user now (delete_reject f) w h =
      finish-Spares (respond_data id 200 λ a. status "rejected") (reject_request x u svc env f) w
        (λ a. refl) (reject_request-Spares f w) h
  serve_friends_error_unchanged atoi id user now (post_block none) w h = refl
  serve_friends_error_unchanged atoi id user now (post_block (some (to, reason))) w h =
      finish-Spares (respond_status id 204) (block x u svc env user to reason) w (λ a. refl)
        (block-Spares user to reason w) h
  serve_friends_error_unchanged atoi id user now (delete_block to) w h =
      finish-Spares (respond_status id 204) (unblock x u svc env user to) w (λ a. refl)
        (unblock-Spares user to w) h
  serve_friends_error_unchanged atoi id user now get_blocked w h =
      finish-Spares (respond_data id 200 blocked) (list_blocked_users x u svc env user) w
        (λ a. refl) (list_blocked_users-Spares user w) h
  serve_friends_error_unchanged atoi id user now (delete_friend to) w h =
      finish-Spares (respond_status id 204) (remove_friend x u svc env user to) w (λ a. refl)
        (remove_friend-Spares user to w) h
  serve_friends_error_unchanged atoi id user now (get_recent limit) w h =
      finish-Spares (respond_data id 200 ids)
        (list_recent_contacts x u svc env now user (recent_limit atoi limit)) w (λ a. refl)
        (list_recent_contacts-Spares now user (recent_limit atoi limit) w) h
  serve_friends_error_unchanged atoi id user now get_friends w h =
      finish-Spares (respond_data id 200 friendships) (list_friends x u svc env user) w (λ a. refl)
        (list_friends-Spares user w) h
  serve_friends_error_unchanged atoi id user now get_pending w h =
      finish-Spares (respond_data id 200 friendships) (list_pending_requests x u svc env user) w
        (λ a. refl) (list_pending_requests-Spares user w) h
  serve_friends_error_unchanged atoi id user now get_online w h =
      finish-Spares (respond_data id 200 ids) (get_online_friends x u svc env user) w (λ a. refl)
        (get_online_friends-Spares user w) h
