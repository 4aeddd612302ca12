-- ===== src/Chat/Service/Delivery.antt =====
-- `handleSendMessage` of internal/chat/service.go: when a message is stored, and who receives it.
use cyandie_backend.Common.{
  ℕ, ◌/◌, String, true, false, ◌&&◌, some, [], ◌∷◌, ◌++◌, ◌≡◌, refl, sym, subst, arith, str_eq,
  str_eq_refl, Option-cases, Bool-cases, inl, inr, ◌⊎◌, Pointwise,
}
use cyandie_backend.Db.Rooms.{Env, Tables, ChatMessage, new_message, is_room, create_chat_message_q}
use cyandie_backend.Db.Rooms
use cyandie_backend.Uuid.{UuidCodec}
use cyandie_backend.Chat.Codec.{Frame, encode_frame}
use cyandie_backend.Chat.Messages.{
  ChatEnvelope, Protobuf, send_message_request, envelope, receive_message, recv_msg,
}
use cyandie_backend.Chat.Server.{Connection, deliver, broadcast, is_in_room}
use cyandie_backend.Chat.Service.Receivers.{Receives, broadcast-Receives}
use cyandie_backend.Chat.Service.Hub.{
  ChatService, Hub, parse_or_nil, frame_of, send_error, broadcast_envelope,
}
use cyandie_backend.Chat.Service.Messages.{
  handle_send_message, send_in_room, is_stopped, after_store,
}

-- The excluded connection gets nothing.
deliver_excluded : (room : String) (f : Frame) (c : Connection) → deliver room f c.id c ≡ c
unfolding deliver
deliver_excluded room f c = ground (arith, str_eq_refl c.id)

module _ (p : Protobuf) (u : UuidCodec) (svc : ChatService) (env : Env) where
  -- The envelope of a stored message.
  abbrev pub received : String → String → String → String → ℕ → ChatEnvelope
  received room_id sender content message_type room = envelope recv_msg (
      receive_message room_id sender content message_type (env.now / 1000000) (u.format env.new_id))

  -- What becomes of the hub when a message is stored: one row is added, every other authenticated
  -- connection in the room gets the message once, and the sender's connection gets nothing.
  abbrev pub stored : String → String → String → ℕ → Hub → Hub
  stored room_id content message_type room h =
      let f = frame_of p (received room_id h.conn.user_id content message_type room) in
      record h {
        before = broadcast room_id f h.conn.id h.before;
        after = broadcast room_id f h.conn.id h.after;
        tables = record h.tables {
          messages =
              h.tables.messages
              ++ new_message env room (parse_or_nil u h.conn.user_id) content message_type ∷ [];
        };
      }

  -- What a message needs in order to be stored.
  pub record IsAccepted (room_id : String) (room : ℕ) (h : Hub) : Type 0 where
    pub authenticated : str_eq h.conn.user_id "" ≡ false
    pub room_parsed : u.parse room_id ≡ some room
    pub in_room : is_in_room room_id h.conn ≡ true
    pub not_stopped : is_stopped p u svc env room h ≡ false
    pub connected : env.fails create_chat_message_q ≡ false
    pub keys_exist : (env.is_user (parse_or_nil u h.conn.user_id) && is_room room h.tables) ≡ true

  -- What a message that meets the conditions of `IsAccepted` makes of the hub, in one equation.
  pub handle_send_message_lem :
      (room_id content message_type : String) (room : ℕ) (h : Hub)
      → IsAccepted room_id room h
      → handle_send_message p u svc env (send_message_request room_id content message_type) h
        ≡ stored room_id content message_type room h
  unfolding handle_send_message Rooms.create_chat_message after_store send_in_room
      broadcast_envelope
  handle_send_message_lem room_id content message_type room h a =
      let f = frame_of p (received room_id h.conn.user_id content message_type room) in
      ground (arith, deliver_excluded room_id f h.conn)

  -- The hub before and after a message that is stored.
  pub record IsStored (room_id content message_type : String) (room : ℕ) (h h' : Hub) : Type 0 where
    pub sender_kept : h'.conn ≡ h.conn
    pub presence_kept : h'.presence ≡ h.presence
    pub one_row : h'.tables ≡ record h.tables {
      messages =
          h.tables.messages
          ++ record {
            id = env.new_id;
            room_id = room;
            sender_id = parse_or_nil u h.conn.user_id;
            content = content;
            message_type = message_type;
            created_at = env.now;
          }
            ∷ [];
    }
    pub sent_before :
        Pointwise
          (Receives room_id h.conn.id
            (encode_frame (frame_of p (received room_id h.conn.user_id content message_type room))))
          h.before
          h'.before
    pub sent_after :
        Pointwise
          (Receives room_id h.conn.id
            (encode_frame (frame_of p (received room_id h.conn.user_id content message_type room))))
          h.after
          h'.after

  -- A message that meets the conditions of `IsAccepted` is stored as one row with its sender, room, text and
  -- type. Its frame is written exactly once to each connection that is another one than the sender's, has
  -- authenticated and has entered the room; all others, the sender's own included, are as they were.
  pub handle_send_message-IsStored :
      (room_id content message_type : String) (room : ℕ) (h : Hub)
      → IsAccepted room_id room h
      → IsStored room_id content message_type room h
          (handle_send_message p u svc env (send_message_request room_id content message_type) h)
  handle_send_message-IsStored room_id content message_type room h a =
      let f = frame_of p (received room_id h.conn.user_id content message_type room) in
      subst (IsStored room_id content message_type room h)
        (sym (handle_send_message_lem room_id content message_type room h a))
        (record {
          sender_kept = refl;
          presence_kept = refl;
          one_row = refl;
          sent_before = broadcast-Receives room_id h.conn.id f h.before;
          sent_after = broadcast-Receives room_id h.conn.id f h.after;
        })

  -- Where a message does not meet the conditions of `IsAccepted`, nothing is stored and nobody else
  -- receives anything: the sender gets one error frame.
  pub handle_send_message_refused :
      (room_id content message_type : String) (h : Hub)
      → ((room : ℕ) × IsAccepted room_id room h)
        ⊎ ((code : String) × (message : String) × (handle_send_message p u svc env
                (send_message_request room_id content message_type)
                h
              ≡ send_error p code message h))
  unfolding handle_send_message Rooms.create_chat_message after_store send_in_room
  handle_send_message_refused room_id content message_type h =
      elim (Bool-cases (str_eq h.conn.user_id "")) [
        | inl anonymous ↦ inr ("UNAUTHORIZED", "not authenticated", rw anonymous)
        | inr authenticated ↦ elim (Option-cases (u.parse room_id)) [
          | inl bad ↦ inr ("BAD_REQUEST", "invalid room id", ground (arith, authenticated, bad))
          | inr (room, parsed) ↦ elim (Bool-cases (is_in_room room_id h.conn)) [
            | inr outside ↦ inr (
              "FORBIDDEN",
              "you are not in this room",
              ground (arith, authenticated, parsed, outside),
            )
            | inl inside ↦ elim (Bool-cases (is_stopped p u svc env room h)) [
              | inl stopped ↦ inr (
                "FORBIDDEN",
                "you are blocked by a room member",
                ground (arith, authenticated, parsed, inside, stopped),
              )
              | inr free ↦ elim (Bool-cases (env.fails create_chat_message_q)) [
                | inl down ↦ inr (
                  "INTERNAL_ERROR",
                  "failed to save message",
                  ground (arith, authenticated, parsed, inside, free, down),
                )
                | inr up ↦
                    elim (Bool-cases
                      (env.is_user (parse_or_nil u h.conn.user_id) && is_room room h.tables)) [
                        | inr missing ↦ inr (
                          "INTERNAL_ERROR",
                          "failed to save message",
                          ground (arith, authenticated, parsed, inside, free, up, missing),
                        )
                        | inl keys ↦ inl (
                          room,
                          record {
                            authenticated = authenticated;
                            room_parsed = parsed;
                            in_room = inside;
                            not_stopped = free;
                            connected = up;
                            keys_exist = keys;
                          },
                        )
                      ]
              ]
            ]
          ]
        ]
      ]
