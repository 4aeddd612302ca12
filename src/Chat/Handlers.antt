-- ===== src/Chat/Handlers.antt =====
-- internal/chat/handler.go: the HTTP handlers of `Handler`. A body that does not decode is none.
pub mod History
use cyandie_backend.Common.{
  ℕ, zero, suc, String, Bool, true, false, Option, none, some, List, if◌then◌else◌, str_eq, ltb,
  any,
}
use cyandie_backend.Common.Int.{ℤ, pos, negsuc}
use cyandie_backend.Core.Http.{Response, sends, sends_text, Handler}
use cyandie_backend.Db.Rows.{DbResult, row, no_rows, failed, null_string, nil_uuid}
use cyandie_backend.Db.Rooms.{
  ChatRoom, ChatRoomMember, ChatMessage, Tables, Env, create_chat_room, add_room_member,
  get_room_members, get_chat_messages, list_rooms_by_user,
}
use cyandie_backend.Uuid.{UuidCodec}

pub record CreateRoomRequest : Type 0 where
  pub room_type : String
  pub name : String
  pub metadata : String

-- The rows of a query, or the answer to its error.
abbrev pub rows_or {ℓ} : {A B : Type ℓ} → Response B → (A → Response B) → DbResult A → Response B
rows_or e f (row a) = f a
rows_or e f no_rows = e
rows_or e f failed = e

abbrev pub unauthorized {ℓ} : {A : Type ℓ} → Response A
unauthorized = sends_text "{\"error\":\"unauthorized\"}" 401

abbrev pub id_or_nil : Option ℕ → ℕ
id_or_nil none = nil_uuid
id_or_nil (some id) = id

-- The limit and the offset, given `strconv.ParseInt(text, 10, 32)`.
abbrev pub limit_of : Option ℤ → ℕ
limit_of none = 50
limit_of (some (negsuc n)) = 50
limit_of (some (pos zero)) = 50
limit_of (some (pos (suc n))) = if ltb 200 (suc n) then 200 else suc n

abbrev pub offset_of : Option ℤ → ℕ
offset_of none = 0
offset_of (some (negsuc n)) = 0
offset_of (some (pos n)) = n

module _ (u : UuidCodec) (env : Env) where
  -- `listRooms`
  unfoldable pub list_rooms : String → Handler Tables (List ChatRoom)
  list_rooms user_id t = if str_eq user_id "" then (unauthorized, t) else elim (u.parse user_id) [
    | none ↦ (sends_text "{\"error\":\"invalid user id\"}" 400, t)
    | some uid ↦ (
      rows_or (sends_text "{\"error\":\"failed to list rooms\"}" 500) (sends 200)
          (list_rooms_by_user env uid t),
      t,
    )
  ]

  -- `createRoom` from the room's row on.
  abbrev pub add_owner : String → DbResult ChatRoom → Handler Tables ChatRoom
  add_owner user_id (row room) t =
      let (r, t') = add_room_member env room.id (id_or_nil (u.parse user_id)) "owner" t in
      (
        rows_or (sends_text "{\"error\":\"failed to add room member\"}" 500) (λ m. sends 201 room)
            r,
        t',
      )
  add_owner user_id no_rows t = (sends_text "{\"error\":\"failed to create room\"}" 500, t)
  add_owner user_id failed t = (sends_text "{\"error\":\"failed to create room\"}" 500, t)

  abbrev pub create_decoded : String → Option CreateRoomRequest → Handler Tables ChatRoom
  create_decoded user_id none t = (sends_text "{\"error\":\"invalid request body\"}" 400, t)
  create_decoded user_id (some req) t =
      let (r, t') =
        create_chat_room env req.room_type (null_string req.name) (null_string req.metadata) t in
      add_owner user_id r t'

  -- `createRoom`
  unfoldable pub create_room : String → Option CreateRoomRequest → Handler Tables ChatRoom
  create_room user_id body t =
      if str_eq user_id "" then (unauthorized, t) else create_decoded user_id body t

  -- `m.UserID.String() == userID` of one of the members
  abbrev pub is_member : String → List ChatRoomMember → Bool
  is_member user_id = any (λ m. str_eq (u.format m.user_id) user_id)

  abbrev pub messages_of :
      String → ℕ → ℕ → ℕ → Tables → DbResult (List ChatRoomMember) → Response (List ChatMessage)
  messages_of user_id room_id limit offset t (row members) =
      if is_member user_id members
      then rows_or (sends_text "{\"error\":\"failed to get messages\"}" 500) (sends 200)
          (get_chat_messages env room_id limit offset t)
      else sends_text "{\"error\":\"forbidden\"}" 403
  messages_of user_id room_id limit offset t no_rows =
      sends_text "{\"error\":\"room not found\"}" 404
  messages_of user_id room_id limit offset t failed =
      sends_text "{\"error\":\"room not found\"}" 404

  abbrev pub messages_in : String → Option ℕ → ℕ → ℕ → Tables → Response (List ChatMessage)
  messages_in user_id none limit offset t = sends_text "{\"error\":\"invalid room id\"}" 400
  messages_in user_id (some room_id) limit offset t =
      messages_of user_id room_id limit offset t (get_room_members env room_id t)

  -- `getMessages`, given what `ParseInt` makes of the two texts
  unfoldable pub get_messages :
      String → String → Option ℤ → Option ℤ → Handler Tables (List ChatMessage)
  get_messages user_id room_id limit offset t = (
    if str_eq user_id ""
        then unauthorized
        else messages_in user_id (u.parse room_id) (limit_of limit) (offset_of offset) t,
    t,
  )
