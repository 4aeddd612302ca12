-- ===== src/Chat/Service/Rooms.antt =====
-- internal/chat/service.go: `handleAuth`, `handleJoinRoom` and `handleLeaveRoom`.
use cyandie_backend.Common.{String, Option, none, some, if◌then◌else◌, str_eq}
use cyandie_backend.Db.Rows.{DbResult, row, no_rows, failed}
use cyandie_backend.Db.Rooms.{Env, ChatRoomMember, Tables}
use cyandie_backend.Db.Rooms
use cyandie_backend.Uuid.{UuidCodec}
use cyandie_backend.Chat.Messages.{
  Protobuf, Payload, envelope, auth_request, auth_response, auth_ok, join_room_request,
  join_room_response, join_room_ok, leave_room_request, leave_room_response, leave_room_ok,
}
use cyandie_backend.Chat.Server.{enter_room, exit_room}
use cyandie_backend.Chat.Service.Hub.{
  ChatService, Hub, on_conn, parse_or_nil, send_envelope, send_error,
}

module _ (p : Protobuf) (u : UuidCodec) (svc : ChatService) (env : Env) where
  -- The user id that a token stands for: without a validator it is the token itself.
  abbrev pub validate_token : String → Option String
  validate_token token = elim svc.token_validator [
    | none ↦ some token
    | some validate ↦ validate token
  ]

  unfoldable pub authenticate : String → String → Option String → Hub → Hub
  authenticate token username none h = send_error p "AUTH_REJECTED" "invalid token" h
  authenticate token username (some user_id) h =
      send_envelope p (envelope auth_ok (auth_response user_id ""))
        (on_conn (λ c. record c { user_id = user_id; username = username }) h)

  -- `handleAuth`
  unfoldable pub handle_auth : Payload → Hub → Hub
  unfolding authenticate
  handle_auth (auth_request token username) h =
      if str_eq token ""
      then send_error p "BAD_REQUEST" "missing access token" h
      else authenticate token username (validate_token token) h
  handle_auth _ h = send_error p "BAD_REQUEST" "missing access token" h

  unfoldable pub after_join : String → DbResult ChatRoomMember × Tables → Hub → Hub
  after_join room_id (row m, t) h = on_conn (enter_room room_id) (
      send_envelope p (envelope join_room_ok (join_room_response room_id))
        (record h { tables = t }))
  after_join room_id (no_rows, t) h =
      send_error p "INTERNAL_ERROR" "failed to join room" (record h { tables = t })
  after_join room_id (failed, t) h =
      send_error p "INTERNAL_ERROR" "failed to join room" (record h { tables = t })

  -- `handleJoinRoom` of an authenticated connection.
  unfoldable pub join_room_as : Payload → Hub → Hub
  unfolding after_join Rooms.add_room_member
  join_room_as (join_room_request room_id) h =
      after_join room_id
        (Rooms.add_room_member env (parse_or_nil u room_id) (parse_or_nil u h.conn.user_id) "member"
          h.tables)
        h
  join_room_as _ h = send_error p "BAD_REQUEST" "missing room_id" h

  -- `handleJoinRoom`
  unfoldable pub handle_join_room : Payload → Hub → Hub
  unfolding join_room_as
  handle_join_room payload h =
      if str_eq h.conn.user_id ""
      then send_error p "UNAUTHORIZED" "not authenticated" h
      else join_room_as payload h

  unfoldable pub after_leave : String → DbResult ChatRoomMember × Tables → Hub → Hub
  after_leave room_id (row m, t) h =
      send_envelope p (envelope leave_room_ok (leave_room_response room_id))
        (on_conn (exit_room room_id) (record h { tables = t }))
  after_leave room_id (no_rows, t) h =
      send_error p "INTERNAL_ERROR" "failed to leave room" (record h { tables = t })
  after_leave room_id (failed, t) h =
      send_error p "INTERNAL_ERROR" "failed to leave room" (record h { tables = t })

  -- `handleLeaveRoom` of an authenticated connection.
  unfoldable pub leave_room_as : Payload → Hub → Hub
  unfolding after_leave Rooms.remove_room_member
  leave_room_as (leave_room_request room_id) h =
      after_leave room_id
        (Rooms.remove_room_member env (parse_or_nil u room_id) (parse_or_nil u h.conn.user_id)
          h.tables)
        h
  leave_room_as _ h = send_error p "BAD_REQUEST" "missing room_id" h

  -- `handleLeaveRoom`
  unfoldable pub handle_leave_room : Payload → Hub → Hub
  unfolding leave_room_as
  handle_leave_room payload h =
      if str_eq h.conn.user_id ""
      then send_error p "UNAUTHORIZED" "not authenticated" h
      else leave_room_as payload h
