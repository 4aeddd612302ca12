-- ===== src/Auth/External.antt =====
-- What internal/auth calls and does not implement: Redis behind the interface `RedisClient`, the JSON
-- form of a session, bcrypt, SHA-256 and github.com/golang-jwt/jwt, with the behaviour that their
-- documentation gives.
use cyandie_backend.Common.{
  ℕ, ◌<◌, String, Bool, true, Option, none, some, ◌≡◌, if◌then◌else◌, str_eq,
}

-- `Session` of session.go.
pub record Session : Type 0 where
  pub id : String
  pub user_id : String
  pub refresh_token_hash : String
  pub created_at : ℕ

-- `Claims` of jwt.go; times in seconds.
pub record Claims : Type 0 where
  pub user_id : String
  pub session_id : String
  pub role : String
  pub expires_at : ℕ
  pub issued_at : ℕ

pub record RedisClient : Type 1 where
  pub Store : Type 0
  -- The server answers.
  pub Up : Store → Type 0
  -- SET with a time to live in seconds; the Boolean is `err == nil`.
  pub set : String → String → ℕ → Store → Bool × Store
  -- GET; `none` is `redis.Nil` or another error.
  pub get : String → Store → Option String
  -- DEL; the Boolean is `err == nil`.
  pub del : String → Store → Bool × Store
  pub get-set :
      (key value k : String) (ttl : ℕ) (s : Store)
      → Up s
      → get k (set key value ttl s).1 ≡ (if str_eq key k then some value else get k s)
  pub set-ok : (key value : String) (ttl : ℕ) (s : Store) → Up s → (set key value ttl s).0 ≡ true
  pub set-Up : (key value : String) (ttl : ℕ) (s : Store) → Up s → Up (set key value ttl s).1
  pub get-del :
      (key k : String) (s : Store)
      → Up s
      → get k (del key s).1 ≡ (if str_eq key k then none else get k s)
  pub del-ok : (key : String) (s : Store) → Up s → (del key s).0 ≡ true
  pub del-Up : (key : String) (s : Store) → Up s → Up (del key s).1

pub record Crypto : Type 0 where
  -- `json.Marshal` and `json.Unmarshal` of a session.
  pub marshal_session : Session → String
  pub unmarshal_session : String → Option Session
  pub unmarshal-marshal : (s : Session) → unmarshal_session (marshal_session s) ≡ some s
  -- `bcrypt.GenerateFromPassword`; `none` is an error.
  pub hash_password : String → Option String
  -- `bcrypt.CompareHashAndPassword`: hash, password.
  pub matches_password : String → String → Bool
  pub matches-hash :
      (password hash : String)
      → hash_password password ≡ some hash
      → matches_password hash password ≡ true
  -- `hashToken`, SHA-256 in hexadecimal.
  pub hash_token : String → String
  -- `SignedString` of an HS256 token: secret, key id, claims.
  pub sign_token : String → String → Claims → Option String
  -- `ParseWithClaims` and `token.Valid` under one secret at a time.
  pub parse_token : String → ℕ → String → Option Claims
  -- A token is valid under its own secret until it expires.
  pub parse-sign :
      (secret kid token : String) (now : ℕ) (c : Claims)
      → sign_token secret kid c ≡ some token
      → now < c.expires_at
      → parse_token secret now token ≡ some c
  -- Under whatever secret a token is valid, its claims are those that were signed.
  pub parse_sound :
      (secret kid token other : String) (now : ℕ) (c d : Claims)
      → sign_token secret kid c ≡ some token
      → parse_token other now token ≡ some d
      → d ≡ c
