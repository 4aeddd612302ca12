-- ===== src/Chat/Service/Hub.antt =====
-- internal/chat/service.go: what the handlers act on, and `sendEnvelope`, `broadcastEnvelope` and
-- `sendError`.
use cyandie_backend.Common.{
  ℕ, String, Bool, Option, none, some, List, [], ◌∷◌, ◌++◌, if◌then◌else◌, str_eq, any,
}
use cyandie_backend.Db.Rows.{nil_uuid}
use cyandie_backend.Db.Rooms.{Tables}
use cyandie_backend.Uuid.{UuidCodec}
use cyandie_backend.Chat.Codec.{Frame}
use cyandie_backend.Chat.Messages.{ChatEnvelope, Protobuf, envelope, error_type, error_message}
use cyandie_backend.Chat.Server.{Connection, send, deliver, broadcast, send_first, envelope_frame}

-- A call of the interface `PresenceSetter`; its error is dropped.
pub data PresenceCall : Type 0 where
  sets_online : String → String → PresenceCall
  sets_offline : String → PresenceCall

-- The interfaces that the service was given; `none` is nil. The error of `IsBlocked` is dropped, so its
-- value is what counts; an error of `ValidateToken` is `none`.
pub record ChatService : Type 0 where
  pub block_checker : Option (String → String → Bool)
  pub has_presence_setter : Bool
  pub token_validator : Option (String → Option String)

-- The server while it handles a message of `conn`: the map of connections, walked in the order
-- `before`, `conn`, `after`, the tables, and the calls of the presence setter, oldest first.
pub record Hub : Type 0 where
  pub before : List Connection
  pub conn : Connection
  pub after : List Connection
  pub tables : Tables
  pub presence : List PresenceCall

abbrev pub connections : Hub → List Connection
connections h = h.before ++ h.conn ∷ h.after

abbrev pub on_conn : (Connection → Connection) → Hub → Hub
on_conn f h = record h { conn = f h.conn }

-- `proto.Marshal` with its error dropped: the data is nil.
abbrev pub marshal_or_nil : Option (List ℕ) → List ℕ
marshal_or_nil none = []
marshal_or_nil (some bytes) = bytes

-- `uuid.Parse` with its error dropped: the UUID is `uuid.Nil`.
abbrev pub parse_or_nil : UuidCodec → String → ℕ
parse_or_nil u text = elim (u.parse text) [ none ↦ nil_uuid | some id ↦ id ]

module _ (p : Protobuf) where
  abbrev pub frame_of : ChatEnvelope → Frame
  frame_of e = envelope_frame e (marshal_or_nil (p.marshal e))

  -- `sendEnvelope`, to the connection whose message is handled.
  unfoldable pub send_envelope : ChatEnvelope → Hub → Hub
  send_envelope e = on_conn (send (frame_of e))

  -- `sendError`
  unfoldable pub send_error : String → String → Hub → Hub
  send_error code message = send_envelope (envelope error_type (error_message code message))

  -- `broadcastEnvelope`
  unfoldable pub broadcast_envelope : String → ChatEnvelope → String → Hub → Hub
  broadcast_envelope room e exclude h = record h {
    before = broadcast room (frame_of e) exclude h.before;
    conn = deliver room (frame_of e) exclude h.conn;
    after = broadcast room (frame_of e) exclude h.after;
  }

  -- `TCPServer.SendToUser` on the whole map.
  unfoldable pub forward : String → ChatEnvelope → Hub → Hub
  forward user_id e h = elim (p.marshal e) [
    | none ↦ h
    | some bytes ↦
        (let f = envelope_frame e bytes in
          if any (λ c. str_eq c.user_id user_id) h.before
          then record h { before = send_first user_id f h.before }
          else if str_eq h.conn.user_id user_id
          then on_conn (send f) h
          else record h { after = send_first user_id f h.after })
  ]
