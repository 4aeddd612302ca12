-- ===== src/Examples/Chat.antt =====
-- Frames, rooms and messages of internal/chat between three connections, with a codec of envelopes that
-- writes the type only.
use cyandie_backend.Common.{
  ℕ, zero, suc, String, Bool, true, false, ◌&&◌, ◌⊎◌, Option, none, some, List, [], ◌∷◌, map, ◌≡◌,
  refl, ap, str_eq, length, flat_map, arith, ◌==◌,
}
use cyandie_backend.Db.Rooms.{Env, Tables, ChatRoom, ChatRoomMember, new_message}
use cyandie_backend.Db.Rooms
use cyandie_backend.Uuid.Unary.{unary_codec}
use cyandie_backend.Chat.Codec.{
  Frame, encode_frame, decode_frame, decode_frames, frame, read_header, decode_value,
}
use cyandie_backend.Chat.Codec.Roundtrip.{
  decode_frame-IsFaithful, decode_frames-encode, sized, IsFaithful,
}
use cyandie_backend.Chat.Messages.{
  ChatEnvelope, Protobuf, envelope, auth, send_message_request, join_room_request, auth_request,
  heartbeat_p,
}
use cyandie_backend.Chat.Server.{Connection, is_in_room, send}
use cyandie_backend.Friends.State.{Call, notify_friend_removed}
use cyandie_backend.Chat.Presence.{notify_users}
use cyandie_backend.Chat.Presence.Privacy.{others, receivers, others-notify_users}
use cyandie_backend.Chat.Service.Hub.{ChatService, Hub, send_error, send_envelope}
use cyandie_backend.Chat.Service.Rooms.{handle_auth, authenticate, handle_join_room}
use cyandie_backend.Chat.Service.Messages.{handle_send_message, is_stopped}
use cyandie_backend.Chat.Service.Dispatch.{handle_message}
use cyandie_backend.Chat.Service.Safety.{OnlyAnswers, handle_message-OnlyAnswers}
use cyandie_backend.Chat.Service.Delivery.{
  IsAccepted, IsStored, handle_send_message-IsStored, handle_send_message_refused,
}
use cyandie_backend.Chat.Service.Sessions.{member_cannot_join}

abbrev hello : Frame
hello = record { frame_type = 272; frame_length = 0; value = 104 ∷ 105 ∷ [] }

decode_frames-encode_example :
    decode_frames 20 (flat_map encode_frame (hello ∷ hello ∷ []))
    ≡ (map sized (hello ∷ hello ∷ []), some read_header)
unfolding encode_frame
decode_frames-encode_example =
    decode_frames-encode (hello ∷ hello ∷ []) 20 (omega arith, (omega arith, tt))
      (omega arith, (omega arith, tt)) (omega arith)

decodes : decode_frame (1 ∷ 16 ∷ 0 ∷ 0 ∷ 0 ∷ 2 ∷ 104 ∷ 105 ∷ 9 ∷ []) ≡ frame (sized hello) (9 ∷ [])
unfolding decode_frame decode_value
decodes = refl

decode_frame-IsFaithful_example :
    IsFaithful (1 ∷ 16 ∷ 0 ∷ 0 ∷ 0 ∷ 2 ∷ 104 ∷ 105 ∷ 9 ∷ []) (sized hello) (9 ∷ [])
decode_frame-IsFaithful_example =
    decode_frame-IsFaithful (1 ∷ 16 ∷ 0 ∷ 0 ∷ 0 ∷ 2 ∷ 104 ∷ 105 ∷ 9 ∷ []) (sized hello) (9 ∷ [])
      (omega arith) decodes

zeros : ℕ → List ℕ
zeros zero = []
zeros (suc n) = 0 ∷ zeros n

length-zeros : (n : ℕ) → length (zeros n) ≡ n
unfolding zeros
length-zeros zero = refl
length-zeros (suc n) = ap suc (length-zeros n)

abbrev large : Frame
large = record { frame_type = 272; frame_length = 0; value = zeros 1048577 }

abbrev member : Connection
member = record {
  id = "a";
  user_id = "ii";
  username = "Alice";
  rooms = some ("ii" ∷ []);
  sent = [];
  is_closed = false;
}

abbrev listener : Connection
listener = record {
  id = "b";
  user_id = "iii";
  username = "Bob";
  rooms = some ("ii" ∷ []);
  sent = [];
  is_closed = false;
}

abbrev anonymous : Connection
anonymous = record {
  id = "c";
  user_id = "";
  username = "";
  rooms = none;
  sent = [];
  is_closed = false;
}

abbrev unmarshal : List ℕ → Option ChatEnvelope
unmarshal [] = none
unmarshal (t ∷ ts) = some (envelope t heartbeat_p)

abbrev pub protobuf : Protobuf
protobuf = record { marshal = λ e. some (e.message_type ∷ []); unmarshal = unmarshal }

abbrev pub env : Env
env = record { fails = λ q. false; is_user = λ n. true; new_id = 8; now = 5000000 }

-- Bob has blocked Alice; nobody else has blocked anybody.
abbrev has_blocked : String → String → Bool
has_blocked s t = str_eq s "iii" && str_eq t "ii"

abbrev svc : ChatService
svc = record {
  block_checker = some has_blocked;
  has_presence_setter = true;
  token_validator = none;
}

abbrev room_row : ChatRoom
room_row = record { id = 1; room_type = "group"; name = none; metadata = none; created_at = 2 }

abbrev member_row : ℕ → ChatRoomMember
member_row user = record { id = 4; room_id = 1; user_id = user; role = "member"; joined_at = 3 }

abbrev tables : Tables
tables = record { rooms = room_row ∷ []; members = member_row 1 ∷ member_row 2 ∷ []; messages = [] }

abbrev pub hub : Hub
hub = record {
  before = anonymous ∷ [];
  conn = member;
  after = listener ∷ [];
  tables = tables;
  presence = [];
}

free : is_stopped protobuf unary_codec svc env 1 hub ≡ false
unfolding is_stopped Rooms.get_room_members
free = refl

pub joined : is_in_room "ii" member ≡ true
unfolding is_in_room
joined = refl

hub-IsAccepted : IsAccepted protobuf unary_codec svc env "ii" 1 hub
hub-IsAccepted = record {
  authenticated = refl;
  room_parsed = refl;
  in_room = joined;
  not_stopped = free;
  connected = refl;
  keys_exist = refl;
}

handle_send_message-IsStored_example :
    IsStored protobuf unary_codec svc env "ii" "hi" "text" 1 hub
      (handle_send_message protobuf unary_codec svc env (send_message_request "ii" "hi" "text") hub)
handle_send_message-IsStored_example =
    handle_send_message-IsStored protobuf unary_codec svc env "ii" "hi" "text" 1 hub hub-IsAccepted

handle_send_message_refused_example :
    ((room : ℕ) × IsAccepted protobuf unary_codec svc env "i" room hub)
    ⊎ ((code : String) × (message : String) × (handle_send_message protobuf unary_codec svc env
            (send_message_request "i" "hi" "text")
            hub
          ≡ send_error protobuf code message hub))
handle_send_message_refused_example =
    handle_send_message_refused protobuf unary_codec svc env "i" "hi" "text" hub

member_cannot_join_example :
    handle_join_room protobuf unary_codec svc env (join_room_request "ii") hub
    ≡ send_error protobuf "INTERNAL_ERROR" "failed to join room" hub
member_cannot_join_example = member_cannot_join protobuf unary_codec svc env "ii" hub refl refl

-- A token of another user, "iiii".
after_auth :
    is_stopped protobuf unary_codec svc env 1
      (handle_auth protobuf unary_codec svc env (auth_request "iiii" "Eve") hub)
    ≡ false
unfolding is_stopped handle_auth authenticate send_envelope send Rooms.get_room_members
after_auth = refl

abbrev anonymous_hub : Hub
anonymous_hub = record hub { conn = anonymous; before = [] }

abbrev heartbeat_frame : Frame
heartbeat_frame = record { frame_type = 16; frame_length = 1; value = 16 ∷ [] }

not_auth : (e : ChatEnvelope) → unmarshal (16 ∷ []) ≡ some e → (e.message_type == auth) ≡ false
not_auth e h = ground (arith, h)

handle_message-OnlyAnswers_example :
    OnlyAnswers anonymous_hub
      (handle_message protobuf unary_codec svc env heartbeat_frame anonymous_hub)
handle_message-OnlyAnswers_example =
    handle_message-OnlyAnswers protobuf unary_codec svc env heartbeat_frame anonymous_hub refl
      not_auth

abbrev removal : Call
removal = notify_friend_removed "iii" "ii"

others-notify_users_example :
    others (receivers removal) (notify_users protobuf removal (anonymous ∷ listener ∷ member ∷ []))
    ≡ others ("iii" ∷ []) (anonymous ∷ listener ∷ member ∷ [])
others-notify_users_example =
    others-notify_users protobuf removal (anonymous ∷ listener ∷ member ∷ [])
