-- ===== src/Db/Social.antt =====
-- internal/db/friends.sql.go over the tables `friendships` and `block_relations`, with the keys that
-- migrations/ declares: both columns of a row refer to users, and a pair is blocked once.
pub mod Consistency
use cyandie_backend.Common.{
  ℕ, String, Bool, true, false, not, ◌&&◌, ◌||◌, Option, none, some, List, [], ◌∷◌, ◌++◌, map,
  if◌then◌else◌, ◌==◌, str_eq, keep, find, any,
}
use cyandie_backend.Db.Rows.{DbResult, row, no_rows, failed, first_row, order_desc, insert_desc}

pub record Friendship : Type 0 where
  pub id : ℕ
  pub user_id : ℕ
  pub friend_id : ℕ
  pub status : String
  pub created_at : ℕ
  pub updated_at : ℕ

pub record BlockRelation : Type 0 where
  pub id : ℕ
  pub blocker_id : ℕ
  pub blocked_id : ℕ
  pub reason : Option String
  pub created_at : ℕ

pub record Tables : Type 0 where
  pub friendships : List Friendship
  pub blocks : List BlockRelation

-- The statements, as far as their success depends on the connection.
pub data Query : Type 0 where
  create_friendship_q get_friendship_by_users_q update_friendship_status_q : Query
  list_friends_q list_pending_requests_q delete_friendship_q : Query
  create_block_relation_q delete_block_relation_q list_blocked_users_q is_blocked_by_q : Query
  delete_friendship_by_users_q list_all_block_relations_q : Query

-- What the database server brings to one request: which statements break, the users that exist, the
-- next generated key and the clock. A request issues a statement at most once.
pub record Env : Type 0 where
  pub fails : Query → Bool
  pub is_user : ℕ → Bool
  pub new_id : ℕ
  pub now : ℕ

-- `(user_id = a AND friend_id = b) OR (user_id = b AND friend_id = a)`
abbrev pub is_between : ℕ → ℕ → Friendship → Bool
is_between a b f = (f.user_id == a && f.friend_id == b) || (f.user_id == b && f.friend_id == a)

-- `blocker_id = a AND blocked_id = b`
abbrev pub is_block_of : ℕ → ℕ → BlockRelation → Bool
is_block_of a b r = r.blocker_id == a && r.blocked_id == b

-- `SET status = $1, updated_at = now() WHERE id = $2`, on one row.
abbrev pub set_status : ℕ → String → ℕ → Friendship → Friendship
set_status id status now f =
    if f.id == id then record f { status = status; updated_at = now } else f

-- The row that `INSERT INTO friendships` adds.
abbrev pub new_friendship : Env → ℕ → ℕ → String → Friendship
new_friendship env user_id friend_id status = record {
  id = env.new_id;
  user_id = user_id;
  friend_id = friend_id;
  status = status;
  created_at = env.now;
  updated_at = env.now;
}

-- The row that `INSERT INTO block_relations` adds.
abbrev pub new_block : Env → ℕ → ℕ → Option String → BlockRelation
new_block env blocker_id blocked_id reason = record {
  id = env.new_id;
  blocker_id = blocker_id;
  blocked_id = blocked_id;
  reason = reason;
  created_at = env.now;
}

module _ (env : Env) where
  unfoldable pub create_friendship : ℕ → ℕ → String → Tables → DbResult Friendship × Tables
  create_friendship user_id friend_id status t =
      if env.fails create_friendship_q || not (env.is_user user_id && env.is_user friend_id)
      then (failed, t)
      else (let f = new_friendship env user_id friend_id status in
          (row f, record t { friendships = t.friendships ++ f ∷ [] }))

  unfoldable pub get_friendship_by_users : ℕ → ℕ → Tables → DbResult Friendship
  get_friendship_by_users a b t =
      if env.fails get_friendship_by_users_q
      then failed
      else first_row (find (is_between a b) t.friendships)

  unfoldable pub update_friendship_status : ℕ → String → Tables → DbResult Friendship × Tables
  update_friendship_status id status t =
      if env.fails update_friendship_status_q
      then (failed, t)
      else (first_row (find (λ f. f.id == id) updated), record t { friendships = updated })
    where
      updated : List Friendship
      updated = map (set_status id status env.now) t.friendships

  unfoldable pub list_friends : ℕ → Tables → DbResult (List Friendship)
  list_friends user_id t =
      if env.fails list_friends_q
      then failed
      else row (
          order_desc (λ f. f.updated_at)
            (keep
              (λ f. (f.user_id == user_id || f.friend_id == user_id) && str_eq f.status "accepted")
              t.friendships))

  unfoldable pub list_pending_requests : ℕ → Tables → DbResult (List Friendship)
  list_pending_requests friend_id t =
      if env.fails list_pending_requests_q
      then failed
      else row (
          order_desc (λ f. f.created_at)
            (keep (λ f. f.friend_id == friend_id && str_eq f.status "pending") t.friendships))

  unfoldable pub delete_friendship : ℕ → Tables → DbResult Friendship × Tables
  delete_friendship id t = if env.fails delete_friendship_q then (failed, t) else (
    first_row (find (λ f. f.id == id) t.friendships),
    record t { friendships = keep (λ f. not (f.id == id)) t.friendships },
  )

  unfoldable pub delete_friendship_by_users : ℕ → ℕ → Tables → DbResult Friendship × Tables
  delete_friendship_by_users a b t =
      if env.fails delete_friendship_by_users_q then (failed, t) else (
        first_row (find (is_between a b) t.friendships),
        record t { friendships = keep (λ f. not (is_between a b f)) t.friendships },
      )

  -- The index `idx_block_unique` refuses a second row of a pair.
  unfoldable pub create_block_relation :
      ℕ → ℕ → Option String → Tables → DbResult BlockRelation × Tables
  create_block_relation blocker_id blocked_id reason t =
      if env.fails create_block_relation_q
        || not (env.is_user blocker_id && env.is_user blocked_id)
        || any (is_block_of blocker_id blocked_id) t.blocks
      then (failed, t)
      else (let b = new_block env blocker_id blocked_id reason in
          (row b, record t { blocks = t.blocks ++ b ∷ [] }))

  unfoldable pub delete_block_relation : ℕ → ℕ → Tables → DbResult BlockRelation × Tables
  delete_block_relation blocker_id blocked_id t =
      if env.fails delete_block_relation_q then (failed, t) else (
        first_row (find (is_block_of blocker_id blocked_id) t.blocks),
        record t { blocks = keep (λ r. not (is_block_of blocker_id blocked_id r)) t.blocks },
      )

  unfoldable pub list_blocked_users : ℕ → Tables → DbResult (List BlockRelation)
  list_blocked_users blocker_id t =
      if env.fails list_blocked_users_q
      then failed
      else row (order_desc (λ r. r.created_at) (keep (λ r. r.blocker_id == blocker_id) t.blocks))

  unfoldable pub is_blocked_by : ℕ → ℕ → Tables → DbResult ℕ
  is_blocked_by blocker_id blocked_id t =
      if env.fails is_blocked_by_q
      then failed
      else elim (find (is_block_of blocker_id blocked_id) t.blocks) [
        | none ↦ no_rows
        | some r ↦ row r.id
      ]

  unfoldable pub list_all_block_relations : Tables → DbResult (List BlockRelation)
  list_all_block_relations t =
      if env.fails list_all_block_relations_q
      then failed
      else row (order_desc (λ r. r.created_at) t.blocks)
