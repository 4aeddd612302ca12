-- ===== src/Chat/Server.antt =====
-- internal/chat/server.go: connections, and what `TCPServer` sends over them. The map `conns` is a list
-- in the order in which Go happens to walk it; `Connection.sent` holds the bytes of each write, oldest
-- first. Locks are not modelled: each operation holds its lock for as long as it runs.
pub mod Membership
use cyandie_backend.Common.{
  ℕ, ◌%◌, String, Bool, true, false, not, ◌&&◌, Option, none, some, List, [], ◌∷◌, ◌++◌, map,
  if◌then◌else◌, str_eq, any, keep, find,
}
use cyandie_backend.Chat.Codec.{Frame, encode_frame}
use cyandie_backend.Chat.Messages.{ChatEnvelope, Protobuf}

pub record Connection : Type 0 where
  pub id : String
  pub user_id : String
  pub username : String
  -- `none` is a nil map; a map is the list of its keys.
  pub rooms : Option (List String)
  pub sent : List (List ℕ)
  pub is_closed : Bool

-- `&Connection{ID: generateConnID(), Conn: conn}`
unfoldable pub new_connection : String → Connection
new_connection id = record {
  id = id;
  user_id = "";
  username = "";
  rooms = none;
  sent = [];
  is_closed = false;
}

add_key : String → List String → List String
add_key k ks = if any (str_eq k) ks then ks else k ∷ ks

-- `Connection.JoinRoom`
unfoldable pub enter_room : String → Connection → Connection
unfolding add_key
enter_room room c = elim c.rooms [
  | none ↦ record c { rooms = some (room ∷ []) }
  | some rooms ↦ record c { rooms = some (add_key room rooms) }
]

-- `Connection.LeaveRoom`
unfoldable pub exit_room : String → Connection → Connection
exit_room room c = elim c.rooms [
  | none ↦ c
  | some rooms ↦ record c { rooms = some (keep (λ r. not (str_eq room r)) rooms) }
]

-- `Connection.IsInRoom`
unfoldable pub is_in_room : String → Connection → Bool
is_in_room room c = elim c.rooms [ none ↦ false | some rooms ↦ any (str_eq room) rooms ]

-- `Connection.Send`; the error of the write is dropped by every caller.
unfoldable pub send : Frame → Connection → Connection
send f c = record c { sent = c.sent ++ encode_frame f ∷ [] }

-- Whom `Broadcast` sends to.
abbrev pub is_recipient : String → String → Connection → Bool
is_recipient room exclude c =
    not (str_eq c.id exclude) && (not (str_eq c.user_id "") && is_in_room room c)

-- One round of the loop of `Broadcast`.
unfoldable pub deliver : String → Frame → String → Connection → Connection
deliver room f exclude c = if is_recipient room exclude c then send f c else c

-- `TCPServer.Broadcast`
unfoldable pub broadcast : String → Frame → String → List Connection → List Connection
broadcast room f exclude = map (deliver room f exclude)

-- `TCPServer.GetConnection`
unfoldable pub get_connection : String → List Connection → Option Connection
get_connection user_id = find (λ c. str_eq c.user_id user_id)

-- The first connection of the user, given the frame.
unfoldable pub send_first : String → Frame → List Connection → List Connection
send_first user_id f [] = []
send_first user_id f (c ∷ cs) =
    if str_eq c.user_id user_id then send f c ∷ cs else c ∷ send_first user_id f cs

-- The frame of an envelope: `Frame{Type: uint16(env.Type), Value: data}`.
abbrev pub envelope_frame : ChatEnvelope → List ℕ → Frame
envelope_frame e data' = record {
  frame_type = e.message_type % 65536;
  frame_length = 0;
  value = data';
}

-- `TCPServer.SendToUser`
unfoldable pub send_to_user : Protobuf → String → ChatEnvelope → List Connection → List Connection
send_to_user p user_id e cs = elim (p.marshal e) [
  | none ↦ cs
  | some bytes ↦ send_first user_id (envelope_frame e bytes) cs
]

-- The registration of a connection in `acceptLoop`: `s.conns[c.ID] = c`.
unfoldable pub register : Connection → List Connection → List Connection
register c cs = keep (λ d. not (str_eq d.id c.id)) cs ++ c ∷ []

-- The removal in `readLoop`: `delete(s.conns, c.ID)`.
unfoldable pub unregister : String → List Connection → List Connection
unregister id = keep (λ c. not (str_eq c.id id))

-- The timer of `acceptLoop`, when it fires: a connection that has not authenticated is closed.
unfoldable pub auth_timeout : Connection → Connection
auth_timeout c = if str_eq c.user_id "" then record c { is_closed = true } else c
