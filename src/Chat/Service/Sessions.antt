-- ===== src/Chat/Service/Sessions.antt =====
-- What internal/chat/service.go makes of memberships, repeated logins and invitations in particular cases.
use cyandie_backend.Common.{
  ℕ, String, true, false, ◌&&◌, some, List, [], ◌∷◌, ◌++◌, ◌≡◌, ap, ◌∙◌, arith, ◌==◌, str_eq,
  str_eq_iff, any, keep,
}
use cyandie_backend.Db.Rooms.{
  Env, Tables, ChatRoomMember, new_message, is_room, is_member_row, create_chat_message_q,
  get_room_members_q,
}
use cyandie_backend.Db.Rooms
use cyandie_backend.Uuid.{UuidCodec}
use cyandie_backend.Chat.Messages.{
  Protobuf, send_message_request, join_room_request, auth_request, invite_room_request,
  invite_room_notify, invite_room, envelope,
}
use cyandie_backend.Chat.Server.{Connection, is_in_room, send, send_first, envelope_frame}
use cyandie_backend.Chat.Service.Hub.{
  ChatService, Hub, parse_or_nil, send_error, send_envelope, forward,
}
use cyandie_backend.Chat.Service.Rooms.{handle_auth, handle_join_room, validate_token}
use cyandie_backend.Chat.Service.Messages.{handle_send_message, handle_invite_room, is_stopped}
use cyandie_backend.Chat.Service.Delivery.{IsAccepted, handle_send_message_lem}

module _ (p : Protobuf) (u : UuidCodec) (svc : ChatService) (env : Env) where
  -- A user who already has a member row of a room, as its owner has and as every member who comes back on
  -- a new connection, cannot enter it: JOIN_ROOM is answered by an error and the rooms of the connection
  -- stay as they were.
  pub member_cannot_join :
      (room_id : String) (h : Hub)
      → str_eq h.conn.user_id "" ≡ false
      → any
          (is_member_row (parse_or_nil u room_id) (parse_or_nil u h.conn.user_id))
          h.tables.members
        ≡ true
      → handle_join_room p u svc env (join_room_request room_id) h
        ≡ send_error p "INTERNAL_ERROR" "failed to join room" h
  unfolding handle_join_room
  member_cannot_join room_id h authenticated old = ground arith

  -- A second AUTH on a connection changes the user and keeps the rooms, so that a user without a member
  -- row of a room can post there, over a connection by which another user had joined it.
  pub reauthenticated_posts :
      (token username user_id room_id content message_type : String) (room : ℕ) (h : Hub)
      → str_eq token "" ≡ false
      → validate_token p u svc env token ≡ some user_id
      → let h' = handle_auth p u svc env (auth_request token username) h in
        is_in_room room_id h.conn ≡ true
        → str_eq user_id "" ≡ false
        → u.parse room_id ≡ some room
        → is_stopped p u svc env room h' ≡ false
        → env.fails create_chat_message_q ≡ false
        → (env.is_user (parse_or_nil u user_id) && is_room room h.tables) ≡ true
        → (handle_send_message p u svc env
            (send_message_request room_id content message_type)
            h').tables.messages
          ≡ h.tables.messages
            ++ new_message env room (parse_or_nil u user_id) content message_type ∷ []
  unfolding handle_auth send_envelope send is_in_room
  reauthenticated_posts token username user_id room_id content message_type room h token_given valid
        joined user_given parsed free up keys =
      let h' : Hub = handle_auth p u svc env (auth_request token username) h in
      let user : h'.conn.user_id ≡ user_id = ground (arith, token_given, valid) in
      let tables : h'.tables ≡ h.tables = ground (arith, token_given, valid) in
      let accepted : IsAccepted p u svc env room_id room h' = record {
        authenticated = rw user user_given;
        room_parsed = parsed;
        in_room = ground (arith, token_given, valid, joined);
        not_stopped = free;
        connected = up;
        keys_exist = rw (user, tables) keys;
      } in
      ap (λ k. k.tables.messages)
        (handle_send_message_lem p u svc env room_id content message_type room h' accepted)
      ∙ rw (user, tables)

  -- An invitation of a member to the empty user id reaches a connection that has not authenticated, if that
  -- is the first one walked.
  pub invite_anonymous :
      (room_id : String) (room : ℕ) (bytes : List ℕ) (c : Connection) (cs : List Connection)
      (h : Hub)
      → str_eq h.conn.user_id "" ≡ false
      → u.parse room_id ≡ some room
      → env.fails get_room_members_q ≡ false
      → any
          (λ m. str_eq (u.format m.user_id) h.conn.user_id)
          (keep (λ m. m.room_id == room) h.tables.members)
        ≡ true
      → h.before ≡ c ∷ cs
      → c.user_id ≡ ""
      → let notice =
          envelope invite_room (invite_room_notify room_id h.conn.user_id h.conn.username) in
        p.marshal notice ≡ some bytes
        → (handle_invite_room p u svc env (invite_room_request room_id "") h).before
          ≡ send (envelope_frame notice bytes) c ∷ cs
  unfolding handle_invite_room forward send_first Rooms.get_room_members
  invite_anonymous room_id room bytes c cs h authenticated parsed up member walked anonymous made =
      ground (
        arith,
        authenticated,
        parsed,
        up,
        member,
        walked,
        made,
        (str_eq_iff c.user_id "").1 anonymous,
      )
