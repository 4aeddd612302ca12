-- ===== src/Chat/Presence.antt =====
-- internal/chat/presence.go: `ChatPresenceNotifier`, which carries the calls of internal/friends to the
-- connections of the chat server.
pub mod Privacy
use cyandie_backend.Common.{String, List, [], ◌∷◌}
use cyandie_backend.Friends.State.{
  Call, notify_online, notify_offline, notify_friend_removed, notify_blocked,
}
use cyandie_backend.Chat.Messages.{
  ChatEnvelope, Protobuf, envelope, presence_online, presence_offline, friend_removed, block_notify,
  presence_online_p, presence_offline_p, friend_removed_p, block_notify_p,
}
use cyandie_backend.Chat.Server.{Connection, send_to_user}

-- The loop over the ids.
unfoldable pub send_to_users :
    Protobuf → ChatEnvelope → List String → List Connection → List Connection
send_to_users p e [] cs = cs
send_to_users p e (id ∷ ids) cs = send_to_users p e ids (send_to_user p id e cs)

-- The four methods of `ChatPresenceNotifier`, by the call that friends makes.
unfoldable pub notify_users : Protobuf → Call → List Connection → List Connection
notify_users p (notify_online user_id username ids) =
    send_to_users p (envelope presence_online (presence_online_p user_id username "")) ids
notify_users p (notify_offline user_id ids) =
    send_to_users p (envelope presence_offline (presence_offline_p user_id)) ids
notify_users p (notify_friend_removed target removed_by) =
    send_to_user p target (envelope friend_removed (friend_removed_p removed_by))
notify_users p (notify_blocked blocked blocker) =
    send_to_user p blocked (envelope block_notify (block_notify_p blocker))
