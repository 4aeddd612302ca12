-- ===== src/Examples/Handlers.antt =====
-- Requests to the handlers of internal/friends and internal/chat, and the bytes of one connection.
use cyandie_backend.Common.{
  ℕ, ◌+◌, ◌≤◌, String, true, false, Option, none, some, [], ◌∷◌, ◌≡◌, refl, arith, any, ◌==◌, ◌&&◌,
  str_eq, length,
}
use cyandie_backend.Common.Int.{ℤ, pos}
use cyandie_backend.Core.Http.{sends, is_success}
use cyandie_backend.Db.Rows.{order_desc, insert_desc}
use cyandie_backend.Db.Rooms.{ChatMessage, Tables, Env, get_room_members, get_chat_messages}
use cyandie_backend.Uuid.Unary.{unary_codec}
use cyandie_backend.Chat.Codec.{DecodeError, decode_frames}
use cyandie_backend.Chat.Codec.Ends.{decode_frames_ends}
use cyandie_backend.Chat.Handlers.{get_messages}
use cyandie_backend.Chat.Handlers.History.{get_messages-members}
use cyandie_backend.Friends.Memory.{memory_redis}
use cyandie_backend.Friends.Requests.{accept_request}
use cyandie_backend.Friends.Handlers.{put_accept, serve_friends}
use cyandie_backend.Friends.Handlers.Errors.{serve_friends_error_unchanged}
use cyandie_backend.Examples.Friends as Friends
use cyandie_backend.Db.Social

decode_frames_ends_example :
    ((e : DecodeError) × ((decode_frames 8 (0 ∷ 1 ∷ 0 ∷ 0 ∷ 0 ∷ 9 ∷ 7 ∷ [])).1 ≡ some e))
    × (decode_frames (8 + 5) (0 ∷ 1 ∷ 0 ∷ 0 ∷ 0 ∷ 9 ∷ 7 ∷ [])
        ≡ decode_frames 8 (0 ∷ 1 ∷ 0 ∷ 0 ∷ 0 ∷ 9 ∷ 7 ∷ []))
decode_frames_ends_example = decode_frames_ends 8 5 (0 ∷ 1 ∷ 0 ∷ 0 ∷ 0 ∷ 9 ∷ 7 ∷ []) (omega arith)

abbrev room_env : Env
room_env = record { fails = λ q. false; is_user = λ n. true; new_id = 9; now = 100 }

abbrev hello : ChatMessage
hello = record {
  id = 5;
  room_id = 3;
  sender_id = 1;
  content = "hello";
  message_type = "text";
  created_at = 60;
}

abbrev lounge : Tables
lounge = record {
  rooms =
      record { id = 3; room_type = "group"; name = none; metadata = none; created_at = 50 } ∷ [];
  members = record { id = 4; room_id = 3; user_id = 1; role = "owner"; joined_at = 50 } ∷ [];
  messages = hello ∷ [];
}

page :
    (get_messages unary_codec room_env "ii" "iiii" (some (pos 500)) none lounge).0
    ≡ sends 200 (hello ∷ [])
unfolding get_messages get_room_members get_chat_messages order_desc insert_desc
page = refl

get_messages-members_example :
    (id : ℕ) × (unary_codec.parse "iiii" ≡ some id)
    × (any (λ m. (m.room_id == id) && str_eq (unary_codec.format m.user_id) "ii") lounge.members
        ≡ true)
    × (length (hello ∷ []) ≤ 200)
    × ((get_messages unary_codec room_env "ii" "iiii" (some (pos 500)) none lounge).1 ≡ lounge)
get_messages-members_example =
    get_messages-members unary_codec room_env "ii" "iiii" (some (pos 500)) none lounge (hello ∷ [])
      page

abbrev no_number : String → Option ℤ
no_number text = none

missing :
    is_success
      (serve_friends memory_redis unary_codec Friends.svc Friends.env no_number "req" "ii" 9
        (put_accept "ii")
        (Friends.world (record { friendships = []; blocks = [] }))).0
    ≡ false
unfolding serve_friends accept_request Social.update_friendship_status
missing = refl

serve_friends_error_unchanged_example :
    (serve_friends memory_redis unary_codec Friends.svc Friends.env no_number "req" "ii" 9
      (put_accept "ii")
      (Friends.world (record { friendships = []; blocks = [] }))).1.tables
    ≡ record { friendships = []; blocks = [] }
serve_friends_error_unchanged_example =
    serve_friends_error_unchanged memory_redis unary_codec Friends.svc Friends.env no_number "req"
      "ii" 9 (put_accept "ii") (Friends.world (record { friendships = []; blocks = [] })) missing
