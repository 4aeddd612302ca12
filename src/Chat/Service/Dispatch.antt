-- ===== src/Chat/Service/Dispatch.antt =====
-- internal/chat/service.go: `handleMessage` and `handleDisconnect`.
use cyandie_backend.Common.{not, ◌&&◌, none, some, [], ◌∷◌, ◌++◌, if◌then◌else◌, ◌==◌, str_eq}
use cyandie_backend.Db.Rooms.{Env}
use cyandie_backend.Uuid.{UuidCodec}
use cyandie_backend.Chat.Codec.{Frame}
use cyandie_backend.Chat.Messages.{
  ChatEnvelope, Protobuf, auth, heartbeat, heartbeat_ack, join_room, leave_room, send_msg,
  invite_room,
}
use cyandie_backend.Chat.Server.{send}
use cyandie_backend.Chat.Service.Hub.{
  ChatService, Hub, PresenceCall, sets_online, sets_offline, on_conn,
}
use cyandie_backend.Chat.Service.Rooms.{handle_auth, handle_join_room, handle_leave_room}
use cyandie_backend.Chat.Service.Messages.{handle_send_message, handle_invite_room}

-- `Frame{Type: uint16(HEARTBEAT_ACK)}`
abbrev pub ack_frame : Frame
ack_frame = record { frame_type = heartbeat_ack; frame_length = 0; value = [] }

-- A call of the presence setter, if the connection is authenticated and the setter is there.
abbrev pub set_presence : ChatService → PresenceCall → Hub → Hub
set_presence svc call h =
    if not (str_eq h.conn.user_id "") && svc.has_presence_setter
    then record h { presence = h.presence ++ call ∷ [] }
    else h

module _ (p : Protobuf) (u : UuidCodec) (svc : ChatService) (env : Env) where
  -- The case `HEARTBEAT` of `handleMessage`.
  unfoldable pub handle_heartbeat : Hub → Hub
  handle_heartbeat h =
      set_presence svc (sets_online h.conn.user_id h.conn.username) (on_conn (send ack_frame) h)

  -- The switch of `handleMessage`; a type that it does not name is passed over.
  unfoldable pub dispatch : ChatEnvelope → Hub → Hub
  dispatch e h =
      if e.message_type == auth
      then handle_auth p u svc env e.payload h
      else if e.message_type == heartbeat
      then handle_heartbeat h
      else if e.message_type == join_room
      then handle_join_room p u svc env e.payload h
      else if e.message_type == leave_room
      then handle_leave_room p u svc env e.payload h
      else if e.message_type == send_msg
      then handle_send_message p u svc env e.payload h
      else if e.message_type == invite_room
      then handle_invite_room p u svc env e.payload h
      else h

  -- `handleMessage`: a value that is no envelope is passed over.
  unfoldable pub handle_message : Frame → Hub → Hub
  unfolding dispatch
  handle_message f h = elim (p.unmarshal f.value) [ none ↦ h | some e ↦ dispatch e h ]

  -- `handleDisconnect`
  unfoldable pub handle_disconnect : Hub → Hub
  handle_disconnect h = set_presence svc (sets_offline h.conn.user_id) h
