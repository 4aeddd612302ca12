-- ===== src/Auth/Sessions/Lifecycle.antt =====
-- A session of internal/auth/session.go from `Create` to `Revoke`, while Redis answers.

use text.Mathlib.TextLemmas.{append_cancel_left}
use cyandie_backend.Common.{ℕ, String, ◌≡◌, refl, arith, if◌then◌else◌, str_eq, str_eq_iff}
use cyandie_backend.Core.Errors.{ok, err, plain}
use cyandie_backend.Auth.External.{Session, RedisClient, Crypto}
use cyandie_backend.Auth.Sessions.{session_id, session_key, create, get, revoke}

pub str_eq-session_key : (a b : String) → str_eq (session_key a) (session_key b) ≡ str_eq a b
str_eq-session_key a b = ground (
  arith,
  str_eq_iff a b,
  str_eq_iff (session_key a) (session_key b),
  append_cancel_left "session:" a b,
)

module _ (x : RedisClient) (c : Crypto) where
  -- The session that `Create` returns is what `Get` finds under its id; other ids keep their sessions.
  pub get-create :
      (now : ℕ) (nanos user_id hash : String) (ttl : ℕ) (s : x.Store) (id : String)
      → x.Up s
      → (session : Session) × ((create x c now nanos user_id hash ttl s).0 ≡ ok session)
        × (session.id ≡ session_id nanos)
        × (session.user_id ≡ user_id)
        × (get x c id (create x c now nanos user_id hash ttl s).1
            ≡ (if str_eq session.id id then ok session else get x c id s))
  unfolding create get
  get-create now nanos user_id hash ttl s id up =
      let session : Session = record {
        id = session_id nanos;
        user_id = user_id;
        refresh_token_hash = hash;
        created_at = now;
      } in
      let value = c.marshal_session session in
      let stored = x.set-ok (session_key session.id) value ttl s up in
      (
        session,
        ground (arith, stored),
        refl,
        refl,
        ground (
          arith,
          stored,
          x.get-set (session_key session.id) value (session_key id) ttl s up,
          str_eq-session_key session.id id,
          c.unmarshal-marshal session,
        ),
      )

  -- After `Revoke` the id has no session; other ids keep theirs.
  pub get-revoke :
      (id other : String) (s : x.Store)
      → x.Up s
      → ((revoke x c id s).0 ≡ ok tt)
        × (get x c other (revoke x c id s).1 ≡ (
            if str_eq id other
            then err (plain "session not found or expired")
            else get x c other s))
  unfolding revoke get
  get-revoke id other s up =
      let gone = x.del-ok (session_key id) s up in
      (
        ground (arith, gone),
        ground (
          arith,
          gone,
          x.get-del (session_key id) (session_key other) s up,
          str_eq-session_key id other,
        ),
      )

  pub revoke-Up : (id : String) (s : x.Store) → x.Up s → x.Up (revoke x c id s).1
  unfolding revoke
  revoke-Up id s up = ground (arith, x.del-ok (session_key id) s up, x.del-Up (session_key id) s up)

  pub create-Up :
      (now : ℕ) (nanos user_id hash : String) (ttl : ℕ) (s : x.Store)
      → x.Up s
      → x.Up (create x c now nanos user_id hash ttl s).1
  unfolding create
  create-Up now nanos user_id hash ttl s up =
      let session : Session = record {
        id = session_id nanos;
        user_id = user_id;
        refresh_token_hash = hash;
        created_at = now;
      } in
      ground (
        arith,
        x.set-ok (session_key session.id) (c.marshal_session session) ttl s up,
        x.set-Up (session_key session.id) (c.marshal_session session) ttl s up,
      )
