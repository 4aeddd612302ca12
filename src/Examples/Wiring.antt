-- ===== src/Examples/Wiring.antt =====
-- The chat server with the services that cmd/server/main.go gives it.
use cyandie_backend.Common.{true, false, none, some, [], ◌∷◌, ◌≡◌, ◌≢◌, ◌↔◌, refl, arith}
use cyandie_backend.Uuid.Unary.{unary_codec}
use cyandie_backend.Friends.Memory.{memory_redis}
use cyandie_backend.Friends.Blocks.{block, is_blocked, drop_friendship}
use cyandie_backend.Db.Social
use mathlib.Core.List.{Memᴰ}
use cyandie_backend.Db.Rooms.{ChatRoomMember}
use cyandie_backend.Core.Errors.{ok}
use cyandie_backend.Db.Users.{User, get_user_by_id, get_credential_by_type_identifier}
use cyandie_backend.Auth.Memory.{memory_client, plain_crypto, write_claims, write}
use cyandie_backend.Auth.Service.{generate_token_pair, login}
use cyandie_backend.Auth.Service.Login.{IsAdmitted}
use cyandie_backend.Auth.Sessions.{create}
use cyandie_backend.Auth.Tokens.{sign, generate_access_token}
use cyandie_backend.Chat.Messages.{
  send_message_request, envelope, auth_request, auth_response, auth_ok,
}
use cyandie_backend.Chat.Service.Hub.{ChatService, on_conn, send_envelope, send_error}
use cyandie_backend.Chat.Service.Rooms.{handle_auth}
use cyandie_backend.Chat.Service.Entry.{token_validator, handle_auth-login}
use cyandie_backend.Chat.Service.Messages.{handle_send_message, is_stopped}
use cyandie_backend.Chat.Service.Blocking.{block_checker, handle_send_message-block}
use cyandie_backend.Chat.Service.Blocking.Others.{is_stopped-block}
use cyandie_backend.Examples.Friends.{alice, bob, friends, answers, blocked_ok}
use cyandie_backend.Examples.Friends
use cyandie_backend.Examples.Auth.{key, newer, moment, store, pair, accounts}
use cyandie_backend.Examples.Auth
use cyandie_backend.Examples.Chat.{protobuf, env, hub, joined}

-- Alice has blocked Bob.
abbrev svc : ChatService
svc = record {
  block_checker = some (
      block_checker memory_redis unary_codec Friends.svc Friends.env
        (block memory_redis unary_codec Friends.svc Friends.env alice bob "spam" friends).1);
  has_presence_setter = true;
  token_validator = none;
}

handle_send_message-block_example :
    handle_send_message protobuf unary_codec svc env (send_message_request "ii" "hi" "text") hub
    ≡ send_error protobuf "FORBIDDEN" "you are blocked by a room member" hub
handle_send_message-block_example =
    handle_send_message-block protobuf unary_codec memory_redis Friends.svc svc env Friends.env
      Friends.env bob "spam" "ii" "hi" "text" 1 friends hub answers blocked_ok refl refl refl joined
      refl refl

logged :
    (login memory_client plain_crypto
      (key ∷ [])
      unary_codec
      Auth.env
      moment
      accounts
      "eve"
      "pw"
      store).0
    ≡ ok pair
unfolding login generate_token_pair generate_access_token sign create get_user_by_id
    get_credential_by_type_identifier
logged = refl

abbrev guarded : ChatService
guarded = record {
  block_checker = none;
  has_presence_setter = false;
  token_validator = some (token_validator plain_crypto (newer ∷ key ∷ []) 900);
}

handle_auth-login_example :
    (user : User) × IsAdmitted plain_crypto Auth.env accounts "eve" "pw" user
    × (handle_auth protobuf unary_codec guarded env (auth_request pair.access_token "Eve") hub
        ≡ send_envelope protobuf
            (envelope auth_ok (auth_response (unary_codec.format user.id) ""))
            (on_conn
              (λ k. record k { user_id = unary_codec.format user.id; username = "Eve" })
              hub))
unfolding write_claims write
handle_auth-login_example =
    handle_auth-login protobuf unary_codec guarded env memory_client plain_crypto (newer ∷ []) key
      [] Auth.env moment accounts "eve" "pw" store pair 900 "Eve" hub logged (omega arith) refl refl

-- Bob has blocked Alice.
bob_blocked :
    (block memory_redis unary_codec Friends.svc Friends.env bob alice "rude" friends).0 ≡ ok tt
unfolding block drop_friendship Social.create_block_relation Social.get_friendship_by_users
    Social.delete_friendship_by_users
bob_blocked = refl

abbrev after_bob : ChatService
after_bob = record {
  block_checker = some (
      block_checker memory_redis unary_codec Friends.svc Friends.env
        (block memory_redis unary_codec Friends.svc Friends.env bob alice "rude" friends).1);
  has_presence_setter = true;
  token_validator = none;
}

is_stopped-block_example : (is_stopped protobuf unary_codec after_bob env 1 hub ≡ true) ↔ (
    (m : ChatRoomMember) × Memᴰ m hub.tables.members
    × (m.room_id ≡ 1)
    × (unary_codec.format m.user_id ≢ hub.conn.user_id)
    × ((is_blocked memory_redis unary_codec Friends.svc Friends.env hub.conn.user_id
          (unary_codec.format m.user_id)
          friends).0
        ≡ ok true))
is_stopped-block_example =
    is_stopped-block protobuf unary_codec memory_redis Friends.svc after_bob env Friends.env
      Friends.env bob alice "rude" 1 friends hub tt (λ e. cc) bob_blocked refl refl
