-- ===== src/Chat/Service/Blocking.antt =====
-- `BlockChecker` of internal/friends/module.go, as `handleSendMessage` of internal/chat/service.go asks it.
pub mod Others
use cyandie_backend.Common.{
  ℕ, String, Bool, true, false, ◌&&◌, some, List, [], ◌∷◌, ◌≡◌, arith, str_eq, str_eq_iff, any,
  keep, ◌==◌, ap, ◌↔◌, ◌≢◌, sym, str_eq_ne, Option-cases, subst, Bool-cases, if◌then◌else◌, ◌++◌,
  find-snoc_miss, any-keep, any-some, any-of_some, ◌∙◌, inl, inr,
}
use mathlib.Core.List.{Memᴰ}
use cyandie_backend.Core.Errors.{Result, ok, err, panicked}
use cyandie_backend.Db.Social.{BlockRelation, is_block_of, new_block}
use cyandie_backend.Db.Social
use cyandie_backend.Db.Rows.{null_string}
use cyandie_backend.Db.Rooms.{Env, ChatRoomMember, get_room_members_q}
use cyandie_backend.Db.Rooms
use cyandie_backend.Uuid.{UuidCodec}
use cyandie_backend.Friends.Redis.{Redis}
use cyandie_backend.Friends.State.{FriendsService, World, blocked_key}
use cyandie_backend.Friends.Blocks.{block, is_blocked}
use cyandie_backend.Friends.Blocks.Roundtrip.{
  Answers, is_blocked-block, block-distinct, block-parsed, block_writes,
}
use cyandie_backend.Friends.Blocks.Cache.{str_eq-blocked_key}
use cyandie_backend.Chat.Messages.{Protobuf, send_message_request}
use cyandie_backend.Chat.Server.{is_in_room}
use cyandie_backend.Chat.Service.Hub.{ChatService, Hub, send_error}
use cyandie_backend.Chat.Service.Messages.{handle_send_message, send_in_room, is_stopped, stops}

-- `blocked, _ := ...`: beside an error the value is false.
abbrev true_or_false : Result Bool → Bool
true_or_false (ok b) = b
true_or_false (err e) = false
true_or_false panicked = false

-- `Module.BlockChecker` is the service itself, in one state of its tables and its cache.
unfoldable pub block_checker :
    (x : Redis) → UuidCodec → FriendsService → Social.Env → World x.Store → String → String → Bool
block_checker x u friends env w target_user_id by_user_id =
    true_or_false (is_blocked x u friends env target_user_id by_user_id w).0

module _ (p : Protobuf) (u : UuidCodec) (svc : ChatService) (env : Env) where
  stops_at :
      (asks : String → String → Bool) (sender blocked : String) (m : ChatRoomMember)
      → asks sender blocked ≡ true
      → str_eq sender blocked ≡ false
      → str_eq (u.format m.user_id) blocked ≡ true
      → stops p u svc env sender asks m ≡ true
  stops_at asks sender blocked m held other hit =
      let same = (str_eq_iff (u.format m.user_id) blocked).0 hit in
      rw same (ground (arith, held, other, str_eq_iff blocked sender, str_eq_iff sender blocked))

  -- The loop stops at a member row of a user whom the sender has blocked.
  any-stops :
      (asks : String → String → Bool) (sender blocked : String) (room : ℕ)
      (ms : List ChatRoomMember)
      → asks sender blocked ≡ true
      → str_eq sender blocked ≡ false
      → any (λ m. m.room_id == room && str_eq (u.format m.user_id) blocked) ms ≡ true
      → any (stops p u svc env sender asks) (keep (λ m. m.room_id == room) ms) ≡ true
  any-stops asks sender blocked room [] held other h = h
  any-stops asks sender blocked room (m ∷ ms) held other h = ground (
    arith,
    stops_at asks sender blocked m held other,
    any-stops asks sender blocked room ms held other,
  )

module _ (p : Protobuf) (u : UuidCodec) (x : Redis) (friends : FriendsService) (svc : ChatService)
    (env : Env) where
  -- After `Block` returns without an error, a message that the blocker sends into a room in which the
  -- blocked user has a member row is answered with FORBIDDEN to the blocker alone and is not stored, while
  -- Redis and the two lookups answer and the state of internal/friends is as `Block` has left it.
  pub handle_send_message-block :
      (earlier later : Social.Env) (blocked reason room_id content message_type : String) (room : ℕ)
      (w : World x.Store) (h : Hub)
      → Answers x later w.cache
      → (block x u friends earlier h.conn.user_id blocked reason w).0 ≡ ok tt
      → svc.block_checker
        ≡ some (
            block_checker x u friends later
              (block x u friends earlier h.conn.user_id blocked reason w).1)
      → str_eq h.conn.user_id "" ≡ false
      → u.parse room_id ≡ some room
      → is_in_room room_id h.conn ≡ true
      → env.fails get_room_members_q ≡ false
      → any (λ m. m.room_id == room && str_eq (u.format m.user_id) blocked) h.tables.members ≡ true
      → handle_send_message p u svc env (send_message_request room_id content message_type) h
        ≡ send_error p "FORBIDDEN" "you are blocked by a room member" h
  unfolding handle_send_message send_in_room is_stopped Rooms.get_room_members block_checker
  handle_send_message-block earlier later blocked reason room_id content message_type room w h a
        done given authenticated parsed inside up member =
      let w' = (block x u friends earlier h.conn.user_id blocked reason w).1 in
      let held =
        is_blocked-block x u friends earlier later h.conn.user_id blocked reason w a done in
      ground (
        arith,
        any-stops p u svc env (block_checker x u friends later w') h.conn.user_id blocked room
            h.tables.members (ap true_or_false held)
            (block-distinct x u friends earlier h.conn.user_id blocked reason w done) member,
      )
