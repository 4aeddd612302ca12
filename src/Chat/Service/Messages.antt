-- ===== src/Chat/Service/Messages.antt =====
-- internal/chat/service.go: `handleSendMessage` and `handleInviteRoom`.
use cyandie_backend.Common.{
  ℕ, ◌/◌, String, Bool, false, not, ◌&&◌, none, some, List, [], if◌then◌else◌, str_eq, any,
}
use cyandie_backend.Db.Rows.{DbResult, row, no_rows, failed}
use cyandie_backend.Db.Rooms.{Env, ChatRoomMember, ChatMessage, Tables}
use cyandie_backend.Db.Rooms
use cyandie_backend.Uuid.{UuidCodec}
use cyandie_backend.Chat.Messages.{
  Protobuf, Payload, envelope, send_message_request, receive_message, recv_msg, invite_room_request,
  invite_room_notify, invite_room,
}
use cyandie_backend.Chat.Server.{is_in_room}
use cyandie_backend.Chat.Service.Hub.{
  ChatService, Hub, parse_or_nil, send_error, broadcast_envelope, forward,
}

-- `members, _ := ...`: after an error the slice is nil.
abbrev pub members_or_nil : DbResult (List ChatRoomMember) → List ChatRoomMember
members_or_nil (row ms) = ms
members_or_nil no_rows = []
members_or_nil failed = []

module _ (p : Protobuf) (u : UuidCodec) (svc : ChatService) (env : Env) where
  -- The loop over the members: the sender is passed over, and the first one for whom
  -- `IsBlocked(conn.UserID, member)` holds stops the message.
  abbrev pub stops : String → (String → String → Bool) → ChatRoomMember → Bool
  stops sender is_blocked m =
      not (str_eq (u.format m.user_id) sender) && is_blocked sender (u.format m.user_id)

  unfoldable pub is_stopped : ℕ → Hub → Bool
  is_stopped room h = elim svc.block_checker [
    | none ↦ false
    | some is_blocked ↦
        any (stops h.conn.user_id is_blocked)
          (members_or_nil (Rooms.get_room_members env room h.tables))
  ]

  unfoldable pub after_store : String → String → String → DbResult ChatMessage × Tables → Hub → Hub
  after_store room_id content message_type (row m, t) h =
      broadcast_envelope p room_id
        (envelope recv_msg (
          receive_message room_id h.conn.user_id content message_type (m.created_at / 1000000)
            (u.format m.id)))
        h.conn.id (record h { tables = t })
  after_store room_id content message_type (no_rows, t) h =
      send_error p "INTERNAL_ERROR" "failed to save message" (record h { tables = t })
  after_store room_id content message_type (failed, t) h =
      send_error p "INTERNAL_ERROR" "failed to save message" (record h { tables = t })

  -- `handleSendMessage`, once the room id is parsed.
  unfoldable pub send_in_room : String → String → String → ℕ → Hub → Hub
  unfolding after_store Rooms.create_chat_message
  send_in_room room_id content message_type room h =
      if not (is_in_room room_id h.conn)
      then send_error p "FORBIDDEN" "you are not in this room" h
      else if is_stopped room h
      then send_error p "FORBIDDEN" "you are blocked by a room member" h
      else after_store room_id content message_type
          (Rooms.create_chat_message env room (parse_or_nil u h.conn.user_id) content message_type
            h.tables)
          h

  -- `handleSendMessage` of an authenticated connection.
  unfoldable pub send_message_as : Payload → Hub → Hub
  unfolding send_in_room
  send_message_as (send_message_request room_id content message_type) h = elim (u.parse room_id) [
    | none ↦ send_error p "BAD_REQUEST" "invalid room id" h
    | some room ↦ send_in_room room_id content message_type room h
  ]
  send_message_as _ h = send_error p "BAD_REQUEST" "missing message data" h

  -- `handleSendMessage`
  unfoldable pub handle_send_message : Payload → Hub → Hub
  unfolding send_message_as
  handle_send_message payload h =
      if str_eq h.conn.user_id ""
      then send_error p "UNAUTHORIZED" "not authenticated" h
      else send_message_as payload h

  -- `handleInviteRoom`, once the members are listed.
  unfoldable pub invite : String → String → DbResult (List ChatRoomMember) → Hub → Hub
  invite room_id target (row ms) h =
      if any (λ m. str_eq (u.format m.user_id) h.conn.user_id) ms
      then forward p target
          (envelope invite_room (invite_room_notify room_id h.conn.user_id h.conn.username)) h
      else send_error p "FORBIDDEN" "you are not in this room" h
  invite room_id target no_rows h = send_error p "NOT_FOUND" "room not found" h
  invite room_id target failed h = send_error p "NOT_FOUND" "room not found" h

  -- `handleInviteRoom` of an authenticated connection.
  unfoldable pub invite_as : Payload → Hub → Hub
  unfolding invite
  invite_as (invite_room_request room_id target) h = elim (u.parse room_id) [
    | none ↦ send_error p "BAD_REQUEST" "invalid room id" h
    | some room ↦ invite room_id target (Rooms.get_room_members env room h.tables) h
  ]
  invite_as _ h = send_error p "BAD_REQUEST" "missing invite room request" h

  -- `handleInviteRoom`
  unfoldable pub handle_invite_room : Payload → Hub → Hub
  unfolding invite_as
  handle_invite_room payload h =
      if str_eq h.conn.user_id ""
      then send_error p "UNAUTHORIZED" "not authenticated" h
      else invite_as payload h
