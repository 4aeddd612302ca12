-- ===== src/Examples/Friends.antt =====
-- Blocks and requests of internal/friends between three users, over an empty Redis store in memory.
use cyandie_backend.Common.{
  ℕ, String, Bool, true, false, none, some, List, [], ◌∷◌, ◌++◌, ◌≡◌, ◌≢◌, inr, refl, sym, arith,
  find, any, ◌==◌, str_eq, false≢true, ap,
}
use cyandie_backend.Core.Errors.{ok}
use cyandie_backend.Db.Social.{
  Friendship, BlockRelation, Tables, Env, Query, is_between, is_block_of, new_block, new_friendship,
  get_friendship_by_users_q,
}
use cyandie_backend.Db.Social
use cyandie_backend.Db.Social.Consistency.{IsConsistent}
use cyandie_backend.Uuid.Unary.{unary_codec}
use cyandie_backend.Friends.Memory.{memory_redis, Memory, has_member}
use cyandie_backend.Friends.State.{
  FriendsService, World, pending_status, accepted_status, blocked_key,
}
use cyandie_backend.Friends.Blocks.{
  block, unblock, is_blocked, is_blocked_in_db, cached_block, load_block_cache, drop_friendship,
}
use cyandie_backend.Friends.Blocks.Roundtrip.{is_blocked-block, Answers}
use cyandie_backend.Friends.Blocks.Cache.{is_blocked-load_block_cache}
use cyandie_backend.Friends.Requests.{send_request, accept_request, list_friends}
use cyandie_backend.Friends.Requests.Invariant.{
  Request, sends, accepts, blocks, serve_all, serve_all-IsConsistent,
}
use cyandie_backend.Friends.Requests.Lifecycle.{send_request-eq-ok}
use cyandie_backend.Friends.Requests.Acceptance.{list_friends-accept_request}

abbrev pub alice : String
alice = "ii"

abbrev pub bob : String
bob = "iii"

abbrev pub env : Env
env = record { fails = λ q. false; is_user = λ n. true; new_id = 7; now = 100 }

abbrev pub svc : FriendsService
svc = record { has_rdb = true; has_notifier = true }

abbrev pub no_memory : Memory
no_memory = record { sets = []; texts = [] }

abbrev pub world : Tables → World Memory
world t = record { tables = t; cache = no_memory; calls = [] }

abbrev pub old : Friendship
old = record {
  id = 5;
  user_id = 2;
  friend_id = 1;
  status = "accepted";
  created_at = 3;
  updated_at = 4;
}

abbrev old_block : BlockRelation
old_block = record { id = 6; blocker_id = 1; blocked_id = 2; reason = none; created_at = 9 }

abbrev pub friends : World Memory
friends = world (record { friendships = old ∷ []; blocks = [] })

abbrev blocking : World Memory
blocking = world (record { friendships = []; blocks = old_block ∷ [] })

abbrev strangers : World Memory
strangers = world (record { friendships = []; blocks = [] })

pub answers : Answers memory_redis env no_memory
answers = record { up = tt; connected = refl }

pub blocked_ok : (block memory_redis unary_codec svc env alice bob "spam" friends).0 ≡ ok tt
unfolding block drop_friendship Social.create_block_relation Social.get_friendship_by_users
    Social.delete_friendship_by_users
blocked_ok = refl

is_blocked-block_example :
    (is_blocked memory_redis unary_codec svc env alice bob
      (block memory_redis unary_codec svc env alice bob "spam" friends).1).0
    ≡ ok true
is_blocked-block_example =
    is_blocked-block memory_redis unary_codec svc env env alice bob "spam" friends answers
      blocked_ok

unblocked_ok : (unblock memory_redis unary_codec svc env alice bob blocking).0 ≡ ok tt
unfolding unblock Social.delete_block_relation
unblocked_ok = refl

no_sets :
    (id member : String) → memory_redis.s_is_member (blocked_key id) member no_memory ≡ some false
unfolding has_member
no_sets id member = refl

is_blocked-load_block_cache_example :
    (is_blocked memory_redis unary_codec svc env
      (unary_codec.format 1)
      (unary_codec.format 2)
      (load_block_cache memory_redis unary_codec svc env blocking).1).0
    ≡ (is_blocked_in_db memory_redis unary_codec svc env
        (unary_codec.format 1)
        (unary_codec.format 2)
        blocking).0
is_blocked-load_block_cache_example =
    is_blocked-load_block_cache memory_redis unary_codec svc env 1 2 blocking refl tt no_sets refl
      refl

-- "ab" is another text of the id of alice.
ab-alias : "ab" ≢ unary_codec.format 1
ab-alias h = false≢true (sym (ap (str_eq "ab") h))

alice≢ab : alice ≢ "ab"
alice≢ab h = false≢true (sym (ap (str_eq "ii") h))

-- A whole history: a request, its acceptance, and a block.
abbrev history : List (Env × Request)
history = (env, sends alice bob) ∷ (env, accepts "iiiiiiii") ∷ (env, blocks bob alice "") ∷ []

serve_all-IsConsistent_example :
    IsConsistent (serve_all memory_redis unary_codec svc history strangers).tables
serve_all-IsConsistent_example =
    serve_all-IsConsistent memory_redis unary_codec svc history strangers (refl, (refl, (refl, tt)))
      (record { pairs = tt; no_self = tt; block_pairs = tt })

abbrev sent : Friendship
sent = new_friendship env 1 2 pending_status

abbrev pending : World Memory
pending = world (record { friendships = sent ∷ []; blocks = [] })

send_request_works :
    send_request memory_redis unary_codec svc env alice bob strangers ≡ (ok sent, pending)
unfolding send_request is_blocked cached_block has_member Social.get_friendship_by_users
    Social.create_friendship
send_request_works = refl

send_request-eq-ok_example :
    (a : ℕ) × (b : ℕ) × (unary_codec.parse alice ≡ some a)
    × (unary_codec.parse bob ≡ some b)
    × (sent ≡ new_friendship env a b pending_status)
    × (pending ≡ record strangers {
      tables = record strangers.tables { friendships = strangers.tables.friendships ++ sent ∷ [] };
    })
    × ((a == b) ≡ false)
    × ((is_blocked memory_redis unary_codec svc env bob alice strangers).0 ≡ ok false)
    × (env.fails get_friendship_by_users_q ≡ false
        → find (is_between a b) strangers.tables.friendships ≡ none)
send_request-eq-ok_example =
    send_request-eq-ok memory_redis unary_codec svc env alice bob strangers pending sent
      send_request_works

second_refused :
    (f : Friendship) → (send_request memory_redis unary_codec svc env bob alice pending).0 ≢ ok f
unfolding send_request is_blocked cached_block has_member Social.get_friendship_by_users
second_refused f h = ground (arith, h)

abbrev accepted : Friendship
accepted = record sent { status = accepted_status; updated_at = 100 }

abbrev joined : World Memory
joined = world (record { friendships = accepted ∷ []; blocks = [] })

accept_request_works :
    accept_request memory_redis unary_codec svc env (unary_codec.format 7) pending
    ≡ (ok accepted, joined)
unfolding accept_request Social.update_friendship_status
accept_request_works = refl

list_friends-accept_request_example :
    (fs : List Friendship) × ((list_friends memory_redis unary_codec svc env
        (unary_codec.format 2)
        joined).0
      ≡ ok fs)
    × (any (λ g. g.id == 7) fs ≡ true)
list_friends-accept_request_example =
    list_friends-accept_request memory_redis unary_codec svc env env (unary_codec.format 7) pending
      joined accepted 2 accept_request_works refl (inr refl)

-- An environment in which the lookup of a friendship breaks.
abbrev breaks : Query → Bool
breaks get_friendship_by_users_q = true
breaks _ = false

abbrev env_broken : Env
env_broken = record env { fails = breaks }

not_blocked :
    (is_blocked memory_redis unary_codec svc env_broken
      (unary_codec.format 2)
      (unary_codec.format 1)
      friends).0
    ≡ ok false
unfolding is_blocked cached_block has_member
not_blocked = refl
