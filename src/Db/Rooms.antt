-- ===== src/Db/Rooms.antt =====
-- internal/db/chat.sql.go over the tables `chat_rooms`, `chat_room_members` and `chat_messages`, with
-- the keys that migrations/ declares. A JSON value is its text.
use cyandie_backend.Common.{
  ℕ, String, Bool, not, ◌&&◌, ◌||◌, Option, List, [], ◌∷◌, ◌++◌, if◌then◌else◌, ◌==◌, keep, find,
  any, take, drop, flat_map,
}
use cyandie_backend.Db.Rows.{DbResult, row, failed, first_row, order_desc}

pub record ChatRoom : Type 0 where
  pub id : ℕ
  pub room_type : String
  pub name : Option String
  pub metadata : Option String
  pub created_at : ℕ

pub record ChatRoomMember : Type 0 where
  pub id : ℕ
  pub room_id : ℕ
  pub user_id : ℕ
  pub role : String
  pub joined_at : ℕ

pub record ChatMessage : Type 0 where
  pub id : ℕ
  pub room_id : ℕ
  pub sender_id : ℕ
  pub content : String
  pub message_type : String
  pub created_at : ℕ

pub record Tables : Type 0 where
  pub rooms : List ChatRoom
  pub members : List ChatRoomMember
  pub messages : List ChatMessage

pub data Query : Type 0 where
  create_chat_room_q add_room_member_q remove_room_member_q get_room_members_q : Query
  create_chat_message_q get_chat_messages_q list_rooms_by_user_q : Query

-- As in Db/Social.antt, for one message or request.
pub record Env : Type 0 where
  pub fails : Query → Bool
  pub is_user : ℕ → Bool
  pub new_id : ℕ
  pub now : ℕ

abbrev pub is_member_row : ℕ → ℕ → ChatRoomMember → Bool
is_member_row room_id user_id m = m.room_id == room_id && m.user_id == user_id

abbrev pub new_member : Env → ℕ → ℕ → String → ChatRoomMember
new_member env room_id user_id role = record {
  id = env.new_id;
  room_id = room_id;
  user_id = user_id;
  role = role;
  joined_at = env.now;
}

abbrev pub new_message : Env → ℕ → ℕ → String → String → ChatMessage
new_message env room_id sender_id content message_type = record {
  id = env.new_id;
  room_id = room_id;
  sender_id = sender_id;
  content = content;
  message_type = message_type;
  created_at = env.now;
}

abbrev pub new_room : Env → String → Option String → Option String → ChatRoom
new_room env room_type name metadata = record {
  id = env.new_id;
  room_type = room_type;
  name = name;
  metadata = metadata;
  created_at = env.now;
}

abbrev pub is_room : ℕ → Tables → Bool
is_room room_id t = any (λ r. r.id == room_id) t.rooms

module _ (env : Env) where
  unfoldable pub create_chat_room :
      String → Option String → Option String → Tables → DbResult ChatRoom × Tables
  create_chat_room room_type name metadata t =
      if env.fails create_chat_room_q
      then (failed, t)
      else (let r = new_room env room_type name metadata in
          (row r, record t { rooms = t.rooms ++ r ∷ [] }))

  -- UNIQUE(room_id, user_id), and both columns refer to rows that exist.
  unfoldable pub add_room_member : ℕ → ℕ → String → Tables → DbResult ChatRoomMember × Tables
  add_room_member room_id user_id role t =
      if env.fails add_room_member_q
        || not (env.is_user user_id && is_room room_id t)
        || any (is_member_row room_id user_id) t.members
      then (failed, t)
      else (let m = new_member env room_id user_id role in
          (row m, record t { members = t.members ++ m ∷ [] }))

  unfoldable pub remove_room_member : ℕ → ℕ → Tables → DbResult ChatRoomMember × Tables
  remove_room_member room_id user_id t = if env.fails remove_room_member_q then (failed, t) else (
    first_row (find (is_member_row room_id user_id) t.members),
    record t { members = keep (λ m. not (is_member_row room_id user_id m)) t.members },
  )

  unfoldable pub get_room_members : ℕ → Tables → DbResult (List ChatRoomMember)
  get_room_members room_id t =
      if env.fails get_room_members_q
      then failed
      else row (keep (λ m. m.room_id == room_id) t.members)

  unfoldable pub create_chat_message :
      ℕ → ℕ → String → String → Tables → DbResult ChatMessage × Tables
  create_chat_message room_id sender_id content message_type t =
      if env.fails create_chat_message_q || not (env.is_user sender_id && is_room room_id t)
      then (failed, t)
      else (let m = new_message env room_id sender_id content message_type in
          (row m, record t { messages = t.messages ++ m ∷ [] }))

  unfoldable pub get_chat_messages : ℕ → ℕ → ℕ → Tables → DbResult (List ChatMessage)
  get_chat_messages room_id limit offset t =
      if env.fails get_chat_messages_q
      then failed
      else row (
          take limit (
            drop offset
              (order_desc (λ m. m.created_at) (keep (λ m. m.room_id == room_id) t.messages))))

  -- The join has a row for every membership of the user in a room.
  unfoldable pub list_rooms_by_user : ℕ → Tables → DbResult (List ChatRoom)
  list_rooms_by_user user_id t =
      if env.fails list_rooms_by_user_q
      then failed
      else row (
          order_desc (λ r. r.created_at)
            (flat_map (λ m. keep (λ r. r.id == m.room_id) t.rooms)
              (keep (λ m. m.user_id == user_id) t.members)))
