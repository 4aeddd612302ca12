-- ===== src/Lib.antt =====
-- The verification library of the cyandie backend, a Go service of HTTP modules over PostgreSQL and
-- Redis with a chat server over TCP.
--
-- The program's parts and the files about them. Paths are from the repository's root.
--
--   internal/core/errors        Core/Errors.antt: codes, `AppError`, `http_status`; errors of Go and
--                               results of calls, a panic among them. Core/Exec.antt: calls that change
--                               a state and may fail.
--                               Core/Http.antt: what handlers write.
--   internal/core/app.go        Core/App.antt: `App`, `start`, `stop`, `run`, with registry.go.
--   internal/core/config        Core/Config.antt: `load` and `apply_env`.
--   internal/core/middleware    Core/Middleware.antt: what a panic or a reply passes through, in any
--                               order and in that of cmd/server/main.go. Core/Middleware/Timeout.antt: timeout.go as a
--                               step relation. Core/Middleware/RateLimit.antt: ratelimit.go.
--   internal/db                 Db/Rows.antt: answers of a query. Db/Social.antt (friends.sql.go),
--                               Db/Rooms.antt (chat.sql.go), Db/Users.antt (users.sql.go and
--                               credentials.sql.go), Db/Boards.antt (leaderboard.sql.go), Db/Bindings.antt
--                               (platform_bindings.sql.go), Db/Admin.antt (admin.sql.go): each statement
--                               as a function on tables, which are lists of rows, with the unique keys
--                               and references that migrations/ declares; the lengths of columns are not
--                               kept. A record of an environment says for one request which statements
--                               break, the next generated key and the clock.
--   internal/friends/service.go Friends/State.antt: `FriendsService`, the state `World` of tables, Redis
--                               store and calls of the notifier. Friends/Requests.antt (`send_request`
--                               is SendRequest, and so on), Friends/Blocks.antt, Friends/Presence.antt.
--   internal/chat/codec.go      Chat/Codec.antt: `encode_frame`, `decode_frame`, and `decode_frames`, the
--                               loop of readLoop on a reader that is a list of bytes.
--   internal/chat/server.go     Chat/Server.antt: connections and what is sent over them.
--   internal/chat/service.go    Chat/Service: Hub.antt has the state, Rooms.antt and Messages.antt the
--                               handlers, Dispatch.antt `handle_message` and `handle_disconnect`.
--                               Chat/Messages.antt is api/proto/chat/v1/chat.proto.
--   internal/chat/presence.go   Chat/Presence.antt: the calls of friends' notifier, sent to connections.
--   internal/auth               Auth/Sessions.antt (session.go), Auth/Tokens.antt (jwt.go),
--                               Auth/Service.antt (service.go), Auth/Guard.antt (middleware.go).
--   internal/leaderboard        Leaderboard.antt (service.go) over the sorted sets of
--                               Leaderboard/External.antt.
--   internal/platforms          Platforms/Providers.antt (oauth.go, registry.go), Platforms/Wechat.antt
--                               (wechat.go), Platforms.antt (service.go).
--   internal/admin              Admin.antt (service.go).
--   internal/users              Users.antt (service.go).
--   handler.go of each          Friends/Handlers.antt, Chat/Handlers.antt, Auth/Handlers.antt and so on: a
--                               handler is a function of what it has read of the request, to a response
--                               and the state after it.
--
-- Common.antt and its children hold the shared names and lemmas. The files below a component prove
-- theorems about it; Examples applies them at concrete inputs.
--
-- Chat asks friends for blocks and presence through the interfaces `BlockChecker` and `PresenceSetter`;
-- Chat/Service/Hub.antt takes the first as a function and records the calls of the second. Auth stands
-- behind chat as `TokenValidator`, a function as well. Chat/Service/Blocking.antt and Chat/Service/Entry.antt
-- put the services of friends and auth there, as cmd/server/main.go does. Admin takes its token from `generate_token` of Auth, and
-- its changes of a user's status are seen by Auth's `login` on the same table of users.
--
-- What is not the program's own is a parameter with laws: Redis (Friends/Redis.antt and `RedisClient` of
-- Auth/External.antt; the laws hold while the server answers), github.com/google/uuid (Uuid.antt),
-- Protobuf (Chat/Messages.antt, without laws), bcrypt, SHA-256, JSON and JWT (`Crypto`), sorted sets and
-- float64 (Leaderboard/External.antt), counters (`RedisLimiterClient`), HTTP and JSON of WeChat (`Web`, without
-- laws), the collation of the database (without laws). Friends/Memory.antt, Auth/Memory.antt,
-- Leaderboard/Memory.antt and Uuid/Unary.antt are instances for the examples.
--
-- Numbers are natural numbers; a frame's type and length are reduced modulo 2^16 and 2^32 where the code
-- converts. `decode_frames` runs on fuel; each frame takes six bytes at least, so one more than the number
-- of bytes is enough. A map that Go walks in no fixed order is a list in the order in which it is walked,
-- with the connection whose message is handled in between. Each request and message is handled as a whole:
-- interleavings of goroutines inside a handler are not modelled, nor are deadlines, listeners and logging.
--
-- Integers that may be negative are those of Common/Int.antt, with the wrap-around of int64 and int32 where the
-- code adds or converts. A text is its bytes where the program cuts it, one character for each.
--
-- Not modelled: the reading of requests by net/http, encoding/json and chi, the registration of routes and
-- services in the modules, the order of concurrent requests to one middleware but Timeout, internal/auth/otp.go,
-- which nothing calls, and the connections to outside services (internal/core/cache, database, health, logger,
-- server): they hold no logic of the program's own.
pub mod Common
pub mod Admin
pub mod Auth
pub mod Chat
pub mod Core
pub mod Db
pub mod Examples
pub mod Friends
pub mod Leaderboard
pub mod Platforms
pub mod Users
pub mod Uuid
