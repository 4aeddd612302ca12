-- ===== src/Auth/Sessions.antt =====
-- internal/auth/session.go: `SessionStore`.
pub mod Lifecycle
use cyandie_backend.Common.{ℕ, String, Bool, true, false, Option, none, some, if◌then◌else◌}
use Prim.Native.String.{◌++◌ as append}
use cyandie_backend.Core.Errors.{Result, ok, err, plain}
use cyandie_backend.Core.Exec.{Exec}
use cyandie_backend.Auth.External.{Session, RedisClient, Crypto}

-- `fmt.Sprintf("sess_%d", time.Now().UnixNano())`, given the digits.
abbrev pub session_id : String → String
session_id nanos = append "sess_" nanos

-- `s.prefix + sessionID`
abbrev pub session_key : String → String
session_key id = append "session:" id

module _ (x : RedisClient) (c : Crypto) where
  abbrev pub stored_or_fail {ℓ} : {A : Type ℓ} → A → Bool × x.Store → Result A × x.Store
  stored_or_fail a (true, s) = (ok a, s)
  stored_or_fail a (false, s) = (err (plain "redis set"), s)

  -- `Create`, at a Unix time and with the digits of the new id.
  unfoldable pub create : ℕ → String → String → String → ℕ → Exec x.Store Session
  create now nanos user_id refresh_token_hash ttl_seconds s =
      let session : Session = record {
        id = session_id nanos;
        user_id = user_id;
        refresh_token_hash = refresh_token_hash;
        created_at = now;
      } in
      stored_or_fail session
        (x.set (session_key session.id) (c.marshal_session session) ttl_seconds s)

  abbrev pub parsed_or_fail : Option Session → Result Session
  parsed_or_fail none = err (plain "unmarshal session")
  parsed_or_fail (some session) = ok session

  -- `Get`
  unfoldable pub get : String → x.Store → Result Session
  get id s = elim (x.get (session_key id) s) [
    | none ↦ err (plain "session not found or expired")
    | some value ↦ parsed_or_fail (c.unmarshal_session value)
  ]

  abbrev pub deleted_or_fail : Bool × x.Store → Result (Unit {0}) × x.Store
  deleted_or_fail (true, s) = (ok tt, s)
  deleted_or_fail (false, s) = (err (plain "redis del"), s)

  -- `Revoke`
  unfoldable pub revoke : String → Exec x.Store (Unit {0})
  revoke id s = deleted_or_fail (x.del (session_key id) s)
