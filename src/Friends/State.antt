-- ===== src/Friends/State.antt =====
-- internal/friends/service.go: what the methods of `FriendsService` act on, the tables, the Redis
-- store and the calls made to the notifier, and the shapes that their bodies share.
use cyandie_backend.Common.{ℕ, String, Bool, none, some, List, [], ◌∷◌, ◌++◌, if◌then◌else◌}
use Prim.Native.String.{◌++◌ as append}
use cyandie_backend.Core.Errors.{Result, ok, fail, err_bad_request}
use cyandie_backend.Core.Exec.{Exec}
pub use cyandie_backend.Db.Rows.{row_or, row_or_missing}
use cyandie_backend.Db.Rows.{DbResult, row, no_rows, failed}
use cyandie_backend.Db.Social.{Tables}
use cyandie_backend.Uuid.{UuidCodec}

-- A call of the interface `PresenceNotifier`.
pub data Call : Type 0 where
  notify_online : String → String → List String → Call
  notify_offline : String → List String → Call
  notify_friend_removed : String → String → Call
  notify_blocked : String → String → Call

-- The service's pointers that may be nil.
pub record FriendsService : Type 0 where
  pub has_rdb : Bool
  pub has_notifier : Bool

pub record World (S : Type 0) : Type 0 where
  pub tables : Tables
  pub cache : S
  -- Oldest first.
  pub calls : List Call

abbrev pub pending_status : String
pending_status = "pending"

abbrev pub accepted_status : String
accepted_status = "accepted"

-- `fmt.Sprintf("friends:blocked:%s", id)` and its like.
abbrev pub blocked_key : String → String
blocked_key id = append "friends:blocked:" id

abbrev pub online_key : String → String
online_key id = append "friends:online:" id

abbrev pub recent_key : String → String
recent_key id = append "friends:recent:" id

-- `xs, _ := query()`: the zero value is a nil slice.
abbrev pub rows_or_nil {ℓ} : {A : Type ℓ} → DbResult (List A) → List A
rows_or_nil (row xs) = xs
rows_or_nil no_rows = []
rows_or_nil failed = []

-- `uuid.Parse`, with the error that the caller returns in its place.
abbrev pub parse_or : UuidCodec → String → String → Result ℕ
parse_or u text message = elim (u.parse text) [
  | none ↦ fail err_bad_request message
  | some id ↦ ok id
]

-- A statement that may write.
abbrev pub run_query : {S A : Type 0} → (Tables → DbResult A × Tables) → Exec (World S) (DbResult A)
run_query q w = let (r, t) = q w.tables in (ok r, record w { tables = t })

-- A statement that only reads.
abbrev pub read_query : {S A : Type 0} → (Tables → DbResult A) → Exec (World S) (DbResult A)
read_query q w = (ok (q w.tables), w)

-- `if s.notifier != nil { ... }` around one call of the notifier.
abbrev pub notify : {S : Type 0} → FriendsService → Call → Exec (World S) (Unit {0})
notify svc c w = (ok tt, if svc.has_notifier then record w { calls = w.calls ++ c ∷ [] } else w)

-- `if s.rdb != nil { ... }` around one command.
abbrev pub on_cache : {S : Type 0} → FriendsService → (S → S) → Exec (World S) (Unit {0})
on_cache svc f w = (ok tt, if svc.has_rdb then record w { cache = f w.cache } else w)
