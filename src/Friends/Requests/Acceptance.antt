-- ===== src/Friends/Requests/Acceptance.antt =====
-- internal/friends/service.go: `AcceptRequest`, and what `ListFriends` shows afterwards.
use cyandie_backend.Common.{
  ℕ, String, Bool, true, false, ◌&&◌, ◌||◌, none, some, List, [], ◌∷◌, map, ◌≡◌, refl, arith,
  str_eq, str_eq_refl, inl, inr, find, ◌==◌, Option-cases, Bool-cases, any, keep, ◌⊎◌, find-append,
  any-keep, find-some_test, ◌∙◌,
}
use cyandie_backend.Core.Errors.{ok}
use cyandie_backend.Db.Rows.{order_desc, any-order_desc}
use cyandie_backend.Db.Social.{
  Friendship, Env, set_status, update_friendship_status_q, list_friends_q,
}
use cyandie_backend.Uuid.{UuidCodec}
use cyandie_backend.Friends.Redis.{Redis}
use cyandie_backend.Friends.State.{FriendsService, World, accepted_status}
use cyandie_backend.Friends.Requests.{send_request, accept_request, list_friends}
use cyandie_backend.Friends.Requests.Lifecycle.{send_request-eq-ok}

find-set_status :
    (id : ℕ) (status : String) (now : ℕ) (fs : List Friendship)
    → find (λ f. f.id == id) (map (set_status id status now) fs)
      ≡ elim (find (λ f. f.id == id) fs) [
        | none ↦ none
        | some f ↦ some (set_status id status now f)
      ]
find-set_status id status now [] = refl
find-set_status id status now (f ∷ fs) = ground (arith, find-set_status id status now fs)

-- A row that a search by key finds is met by every test that it passes.
any_of_find :
    (p q : Friendship → Bool) (fs : List Friendship) (f : Friendship)
    → find p fs ≡ some f
    → q f ≡ true
    → any q fs ≡ true
any_of_find p q [] f h t = cc
any_of_find p q (g ∷ fs) f h t = elim (Bool-cases (p g)) [
  | inl hit ↦ ground (arith, hit)
  | inr miss ↦ ground (arith, miss, any_of_find p q fs f)
]

module _ (x : Redis) (u : UuidCodec) (svc : FriendsService) where
  -- The row that `AcceptRequest` returns stands in the table, accepted, under the key of the request.
  pub accept_request-eq-ok :
      (env : Env) (text : String) (w w' : World x.Store) (f : Friendship)
      → accept_request x u svc env text w ≡ (ok f, w')
      → (find (λ g. g.id == f.id) w'.tables.friendships ≡ some f)
        × (f.status ≡ accepted_status)
        × (u.parse text ≡ some f.id)
  unfolding accept_request
  accept_request-eq-ok env text w w' f h = elim (Option-cases (u.parse text)) [
    | inl bad ↦ ground (arith, bad)
    | inr (id, e) ↦ elim (Option-cases (find (λ g. g.id == id) w.tables.friendships)) [
      | inl missing ↦
          ground
            (arith, e, missing, find-set_status id accepted_status env.now w.tables.friendships)
      | inr (g, found) ↦
          let change = find-set_status id accepted_status env.now w.tables.friendships in
          let test = find-some_test (λ g. g.id == id) w.tables.friendships found in
          let same : f.id ≡ id = ground (arith, e, found, change, test) in
          (
            rw same (ground (arith, e, found, change, test)),
            ground (arith, e, found, change, test),
            rw same e,
          )
    ]
  ]

  -- A friendship that `AcceptRequest` returns is in the list of friends of each of its two users, while
  -- the query works.
  pub list_friends-accept_request :
      (env env' : Env) (text : String) (w w' : World x.Store) (f : Friendship) (v : ℕ)
      → accept_request x u svc env text w ≡ (ok f, w')
      → env'.fails list_friends_q ≡ false
      → (v ≡ f.user_id) ⊎ (v ≡ f.friend_id)
      → (fs : List Friendship) × ((list_friends x u svc env' (u.format v) w').0 ≡ ok fs)
        × (any (λ g. g.id == f.id) fs ≡ true)
  unfolding list_friends
  list_friends-accept_request env env' text w w' f v h lists either =
      let (found, status, parsed) = accept_request-eq-ok env text w w' f h in
      let mine =
        λ (g : Friendship). (g.user_id == v || g.friend_id == v) && str_eq g.status "accepted" in
      let is_accepted : str_eq f.status accepted_status ≡ true =
        rw status (str_eq_refl accepted_status) in
      let key = λ (g : Friendship). g.updated_at in
      (
        order_desc key (keep mine w'.tables.friendships),
        ground (arith, u.parse-format v),
        any-order_desc (λ g. g.id == f.id) key (keep mine w'.tables.friendships)
            ∙ any-keep (λ g. g.id == f.id) mine w'.tables.friendships
            ∙ any_of_find (λ g. g.id == f.id) (λ g. mine g && g.id == f.id) w'.tables.friendships f
                found (ground (arith, is_accepted)),
      )

  -- Nothing asks who accepts: after a request of one user to another, the same user can accept it, and
  -- the friendship stands without any act of the other; the key of the request is new and the statement
  -- works.
  pub accept_own_request :
      (env env' : Env) (from to : String) (w w' : World x.Store) (f : Friendship)
      → send_request x u svc env from to w ≡ (ok f, w')
      → find (λ g. g.id == f.id) w.tables.friendships ≡ none
      → env'.fails update_friendship_status_q ≡ false
      → (accept_request x u svc env' (u.format f.id) w').0
        ≡ ok (record f { status = accepted_status; updated_at = env'.now })
  unfolding accept_request
  accept_own_request env env' from to w w' f sent fresh works =
      let (a, b, ea, eb, row_is, state, ne, free, lookup) =
        send_request-eq-ok x u svc env from to w w' f sent in
      ground (
        arith,
        u.parse-format f.id,
        state,
        find-append (λ g. g.id == f.id) w.tables.friendships (f ∷ []),
        find-set_status f.id accepted_status env'.now w'.tables.friendships,
      )
