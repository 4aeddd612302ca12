-- ===== src/Chat/Messages.antt =====
-- api/proto/chat/v1/chat.proto, as internal/chat reads and builds its messages, and the Protobuf codec,
-- which is not the program's own.
use cyandie_backend.Common.{ℕ, String, Option, List}

-- The values of `MessageType` that the program names. The field is open: any other number may come.
abbrev pub auth : ℕ
auth = 1

abbrev pub auth_ok : ℕ
auth_ok = 2

abbrev pub heartbeat : ℕ
heartbeat = 16

abbrev pub heartbeat_ack : ℕ
heartbeat_ack = 17

abbrev pub join_room : ℕ
join_room = 256

abbrev pub join_room_ok : ℕ
join_room_ok = 257

abbrev pub leave_room : ℕ
leave_room = 258

abbrev pub leave_room_ok : ℕ
leave_room_ok = 259

abbrev pub send_msg : ℕ
send_msg = 272

abbrev pub recv_msg : ℕ
recv_msg = 273

abbrev pub presence_online : ℕ
presence_online = 320

abbrev pub presence_offline : ℕ
presence_offline = 321

abbrev pub friend_removed : ℕ
friend_removed = 322

abbrev pub block_notify : ℕ
block_notify = 323

abbrev pub invite_room : ℕ
invite_room = 336

abbrev pub error_type : ℕ
error_type = 65535

-- `oneof payload`; the first constructor is an envelope with none of its members.
pub data Payload : Type 0 where
  no_payload : Payload
  -- access_token, username
  auth_request : String → String → Payload
  -- user_id, session_id
  auth_response : String → String → Payload
  heartbeat_p heartbeat_ack_p : Payload
  -- room_id
  join_room_request join_room_response leave_room_request leave_room_response : String → Payload
  -- room_id, content, type
  send_message_request : String → String → String → Payload
  -- room_id, sender_id, content, type, timestamp, message_id
  receive_message : String → String → String → String → ℕ → String → Payload
  -- code, message
  error_message : String → String → Payload
  -- user_id, username, status
  presence_online_p : String → String → String → Payload
  -- user_id
  presence_offline_p friend_removed_p : String → Payload
  -- blocker_id
  block_notify_p : String → Payload
  -- room_id, target_user_id
  invite_room_request : String → String → Payload
  -- room_id, inviter_id, inviter_username
  invite_room_notify : String → String → String → Payload
  -- room_id
  invite_room_accept invite_room_reject : String → Payload

pub record ChatEnvelope : Type 0 where
  pub message_type : ℕ
  pub sequence : ℕ
  pub payload : Payload

-- An envelope as the program builds them: the sequence number stays 0.
abbrev pub envelope : ℕ → Payload → ChatEnvelope
envelope t p = record { message_type = t; sequence = 0; payload = p }

-- google.golang.org/protobuf: `none` is an error.
pub record Protobuf : Type 0 where
  pub marshal : ChatEnvelope → Option (List ℕ)
  pub unmarshal : List ℕ → Option ChatEnvelope
