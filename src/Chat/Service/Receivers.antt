-- ===== src/Chat/Service/Receivers.antt =====
-- Whom `TCPServer.Broadcast` of internal/chat/server.go reaches, and how often.
use cyandie_backend.Common.{
  ℕ, String, true, List, [], ◌∷◌, ◌++◌, ◌≡◌, ◌≢◌, refl, sym, ◌∙◌, arith, str_eq, str_eq_iff,
  str_eq_ne, str_eq_refl, subst, any-some, any-of_some, Option-cases, Bool-cases, inl, inr, ◌⊎◌,
  Pointwise, false≢true, some,
}
use mathlib.Core.List.{Memᴰ}
use cyandie_backend.Chat.Codec.{Frame, encode_frame}
use cyandie_backend.Chat.Server.{Connection, send, is_recipient, deliver, broadcast, is_in_room}

-- A connection is meant by a message into a room when it is another one than the sender's, has authenticated
-- and has entered the room.
pub record IsMeant (room sender : String) (c : Connection) : Type 0 where
  pub is_other : c.id ≢ sender
  pub is_authenticated : c.user_id ≢ ""
  pub rooms : List String
  pub has_rooms : c.rooms ≡ some rooms
  pub has_entered : Memᴰ room rooms

-- A connection before and after a message: one write of the bytes to whom is meant, none to the others.
abbrev pub Receives : String → String → List ℕ → Connection → Connection → Type 0
Receives room sender bytes c d =
    (IsMeant room sender c × (d ≡ record c { sent = c.sent ++ bytes ∷ [] }))
    ⊎ ((¬ IsMeant room sender c) × (d ≡ c))

is_recipient-IsMeant :
    (room sender : String) (c : Connection)
    → is_recipient room sender c ≡ true
    → IsMeant room sender c
unfolding is_in_room
is_recipient-IsMeant room sender c h = elim (Option-cases c.rooms) [
  | inl nowhere ↦ ground (arith, h, nowhere)
  | inr (rooms, some_rooms) ↦ record {
    is_other = λ e. ground (arith, h, e, str_eq_iff c.id sender);
    is_authenticated = λ e. ground (arith, h, e, str_eq_iff c.user_id "");
    rooms = rooms;
    has_rooms = some_rooms;
    has_entered =
        let (found, there, same) = any-some (str_eq room) rooms (ground (arith, h, some_rooms)) in
        subst (λ t. Memᴰ t rooms) (sym ((str_eq_iff room found).0 same)) there;
  }
]

IsMeant-is_recipient :
    (room sender : String) (c : Connection)
    → IsMeant room sender c
    → is_recipient room sender c ≡ true
unfolding is_in_room
IsMeant-is_recipient room sender c m = ground (
  arith,
  str_eq_ne c.id sender m.is_other,
  str_eq_ne c.user_id "" m.is_authenticated,
  m.has_rooms,
  any-of_some (str_eq room) room m.rooms m.has_entered (str_eq_refl room),
)

deliver-Receives :
    (room sender : String) (f : Frame) (c : Connection)
    → Receives room sender (encode_frame f) c (deliver room f sender c)
unfolding deliver send
deliver-Receives room sender f c = elim (Bool-cases (is_recipient room sender c)) [
  | inl meant ↦ inl (is_recipient-IsMeant room sender c meant, rw meant refl)
  | inr other ↦
      inr (λ m. false≢true (sym other ∙ IsMeant-is_recipient room sender c m), rw other refl)
]

pub broadcast-Receives :
    (room sender : String) (f : Frame) (cs : List Connection)
    → Pointwise (Receives room sender (encode_frame f)) cs (broadcast room f sender cs)
unfolding broadcast
broadcast-Receives room sender f [] = tt
broadcast-Receives room sender f (c ∷ cs) =
    (deliver-Receives room sender f c, broadcast-Receives room sender f cs)
