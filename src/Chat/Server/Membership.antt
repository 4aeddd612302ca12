-- ===== src/Chat/Server/Membership.antt =====
-- The rooms of a connection of internal/chat/server.go.
use cyandie_backend.Common.{
  String, not, ◌&&◌, ◌||◌, List, [], ◌∷◌, ◌≡◌, arith, str_eq, str_eq_iff, any, keep, Option-cases,
  inl, inr,
}
use cyandie_backend.Chat.Server.{Connection, enter_room, exit_room, is_in_room}

any-keep_ne :
    (r s : String) (ks : List String)
    → any (str_eq r) (keep (λ k. not (str_eq s k)) ks) ≡ (not (str_eq s r) && any (str_eq r) ks)
any-keep_ne r s [] = ground arith
any-keep_ne r s (k ∷ ks) =
    ground
      (arith, any-keep_ne r s ks, str_eq_iff r s, str_eq_iff s r, str_eq_iff r k, str_eq_iff s k)

-- Equal keys are found alike.
any_eq : (r s : String) (ks : List String) → r ≡ s → any (str_eq r) ks ≡ any (str_eq s) ks
any_eq r s ks e = rw e

-- After `JoinRoom` a connection is in that room and in those where it was.
pub is_in_room-enter_room :
    (r s : String) (c : Connection) → is_in_room r (enter_room s c) ≡ (str_eq s r || is_in_room r c)
unfolding is_in_room enter_room
is_in_room-enter_room r s c = elim (Option-cases c.rooms) [
  | inl nil ↦ ground (arith, nil, str_eq_iff r s, str_eq_iff s r)
  | inr (ks, e) ↦ ground (arith, e, any_eq r s ks, str_eq_iff r s, str_eq_iff s r)
]

-- After `LeaveRoom` a connection is in the rooms where it was, without that one.
pub is_in_room-exit_room :
    (r s : String) (c : Connection)
    → is_in_room r (exit_room s c) ≡ (not (str_eq s r) && is_in_room r c)
unfolding is_in_room exit_room
is_in_room-exit_room r s c = elim (Option-cases c.rooms) [
  | inl nil ↦ ground (arith, nil)
  | inr (ks, e) ↦ ground (arith, e, any-keep_ne r s ks)
]
