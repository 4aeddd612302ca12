-- ===== src/Chat/Presence/Privacy.antt =====
-- Whom a notification of internal/chat/presence.go reaches.
use cyandie_backend.Common.{
  String, true, not, List, [], ◌∷◌, ◌≡◌, refl, arith, str_eq, str_eq_iff, str_eq_refl, any, keep,
  Option-cases, inl, inr, ◌∙◌, Bool-cases,
}
use cyandie_backend.Friends.State.{
  Call, notify_online, notify_offline, notify_friend_removed, notify_blocked,
}
use cyandie_backend.Chat.Codec.{Frame}
use cyandie_backend.Chat.Messages.{ChatEnvelope, Protobuf}
use cyandie_backend.Chat.Server.{Connection, send, send_first, send_to_user, envelope_frame}
use cyandie_backend.Chat.Presence.{send_to_users, notify_users}

-- The users whom a call names as receivers.
abbrev pub receivers : Call → List String
receivers (notify_online user_id username ids) = ids
receivers (notify_offline user_id ids) = ids
receivers (notify_friend_removed target removed_by) = target ∷ []
receivers (notify_blocked blocked blocker) = blocked ∷ []

-- The connections of users who are not in a list.
unfoldable pub others : List String → List Connection → List Connection
others ids = keep (λ c. not (any (str_eq c.user_id) ids))

others-send_first :
    (ids : List String) (id : String) (f : Frame) (cs : List Connection)
    → any (str_eq id) ids ≡ true
    → others ids (send_first id f cs) ≡ others ids cs
unfolding others send_first send
others-send_first ids id f [] named = refl
others-send_first ids id f (c ∷ cs) named = elim (Bool-cases (str_eq c.user_id id)) [
  | inl hit ↦
      let same : any (str_eq c.user_id) ids ≡ true = rw ((str_eq_iff c.user_id id).0 hit) named in
      ground (arith, hit, same)
  | inr miss ↦ ground (arith, miss, others-send_first ids id f cs named)
]

others-send_to_user :
    (p : Protobuf) (ids : List String) (id : String) (e : ChatEnvelope) (cs : List Connection)
    → any (str_eq id) ids ≡ true
    → others ids (send_to_user p id e cs) ≡ others ids cs
unfolding send_to_user
others-send_to_user p ids id e cs named = elim (Option-cases (p.marshal e)) [
  | inl bad ↦ rw (bad, send_to_user) refl
  | inr (bytes, made) ↦
      rw (made, send_to_user) (others-send_first ids id (envelope_frame e bytes) cs named)
]

others-send_to_users :
    (p : Protobuf) (ids some_ids : List String) (e : ChatEnvelope) (cs : List Connection)
    → ((id : String) → any (str_eq id) some_ids ≡ true → any (str_eq id) ids ≡ true)
    → others ids (send_to_users p e some_ids cs) ≡ others ids cs
unfolding send_to_users
others-send_to_users p ids [] e cs sub = refl
others-send_to_users p ids (id ∷ rest) e cs sub =
    others-send_to_users p ids rest e (send_to_user p id e cs) (λ i h. sub i (ground (arith, h)))
    ∙ others-send_to_user p ids id e cs (sub id (ground (arith, str_eq_refl id)))

-- A notification reaches nobody but the users whom the call names: the connections of all others
-- are as they were, and in the same order.
pub others-notify_users :
    (p : Protobuf) (call : Call) (cs : List Connection)
    → others (receivers call) (notify_users p call cs) ≡ others (receivers call) cs
unfolding notify_users
others-notify_users p (notify_online user_id username ids) cs =
    others-send_to_users p ids ids _ cs (λ id h. h)
others-notify_users p (notify_offline user_id ids) cs =
    others-send_to_users p ids ids _ cs (λ id h. h)
others-notify_users p (notify_friend_removed target removed_by) cs =
    others-send_to_user p (target ∷ []) target _ cs (ground (arith, str_eq_refl target))
others-notify_users p (notify_blocked blocked blocker) cs =
    others-send_to_user p (blocked ∷ []) blocked _ cs (ground (arith, str_eq_refl blocked))
