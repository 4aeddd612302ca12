-- ===== src/Examples/Presence.antt =====
-- Presence of internal/friends, for a user with one friendship that the other user had asked for.
use cyandie_backend.Common.{String, ◌&&◌, some, List, [], ◌∷◌, ◌≡◌, refl, any, str_eq}
use cyandie_backend.Core.Errors.{ok}
use cyandie_backend.Uuid.Unary.{unary_codec}
use cyandie_backend.Friends.Memory.{memory_redis, Memory, exists_text}
use cyandie_backend.Friends.State.{World, online_key}
use cyandie_backend.Friends.Presence.{get_online_friends, is_online}
use cyandie_backend.Friends.Presence.Online.{are_friends, get_online_friends_lem}
use cyandie_backend.Examples.Friends.{alice, env, svc, friends}

-- The same while alice is online.
abbrev online : World Memory
online = record friends { cache = record { sets = []; texts = online_key alice ∷ [] } }

is_absent : memory_redis.exists (online_key alice) friends.cache ≡ some 0
unfolding exists_text
is_absent = refl

is_present : memory_redis.exists (online_key alice) online.cache ≡ some 1
unfolding exists_text
is_present = refl

get_online_friends_lem_example :
    (ids : List String) × (get_online_friends memory_redis unary_codec svc env "iii" online
      ≡ (ok ids, online))
    × (any (str_eq (unary_codec.format 1)) ids ≡ (
        is_online memory_redis unary_codec svc env online.cache (unary_codec.format 1)
        && are_friends 2 1 online.tables.friendships))
get_online_friends_lem_example =
    get_online_friends_lem memory_redis unary_codec svc env "iii" 2 1 online refl refl refl refl
