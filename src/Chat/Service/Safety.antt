-- ===== src/Chat/Service/Safety.antt =====
-- What a connection that has not authenticated can do to the state of internal/chat/service.go.
use cyandie_backend.Common.{
  true, false, some, ◌≡◌, arith, ◌==◌, str_eq, str_eq_iff, Option-cases, inl, inr,
}
use cyandie_backend.Db.Rooms.{Env}
use cyandie_backend.Uuid.{UuidCodec}
use cyandie_backend.Chat.Codec.{Frame}
use cyandie_backend.Chat.Messages.{ChatEnvelope, Protobuf, auth}
use cyandie_backend.Chat.Server.{send}
use cyandie_backend.Chat.Service.Hub.{ChatService, Hub, send_error, send_envelope}
use cyandie_backend.Chat.Service.Rooms.{handle_join_room, handle_leave_room}
use cyandie_backend.Chat.Service.Messages.{handle_send_message, handle_invite_room}
use cyandie_backend.Chat.Service.Dispatch.{handle_message, handle_heartbeat}

-- The hub is as it was, but for what was sent to the connection itself.
pub record OnlyAnswers (h h' : Hub) : Type 0 where
  pub before_kept : h'.before ≡ h.before
  pub after_kept : h'.after ≡ h.after
  pub tables_kept : h'.tables ≡ h.tables
  pub presence_kept : h'.presence ≡ h.presence
  pub user_kept : h'.conn.user_id ≡ h.conn.user_id
  pub rooms_kept : h'.conn.rooms ≡ h.conn.rooms

module _ (p : Protobuf) (u : UuidCodec) (svc : ChatService) (env : Env) where
  -- A message of an unauthenticated connection other than AUTH changes no table, no other connection and
  -- no presence, and neither authenticates the connection nor puts it into a room.
  pub handle_message-OnlyAnswers :
      (f : Frame) (h : Hub)
      → h.conn.user_id ≡ ""
      → ((e : ChatEnvelope) → p.unmarshal f.value ≡ some e → (e.message_type == auth) ≡ false)
      → OnlyAnswers h (handle_message p u svc env f h)
  unfolding handle_message handle_heartbeat handle_join_room handle_leave_room handle_send_message
      handle_invite_room send_error send_envelope send
  handle_message-OnlyAnswers f h anonymous other =
      let is_empty : str_eq h.conn.user_id "" ≡ true = (str_eq_iff h.conn.user_id "").1 anonymous in
      elim (Option-cases (p.unmarshal f.value)) [
        | inl bad ↦ ground (arith, bad)
        | inr (e, parsed) ↦ ground (arith, parsed, is_empty, other e parsed)
      ]
