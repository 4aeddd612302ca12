-- ===== src/Auth/Memory.antt =====
-- A Redis server in memory that meets the laws of `RedisClient`, and codecs without secrecy that meet
-- those of `Crypto`, for examples.
use Prim.Native.Char.{code}
use cyandie_backend.Common.{
  ℕ, ◌<◌, String, true, not, Option, none, some, List, [], ◌∷◌, ◌≡◌, refl, arith, if◌then◌else◌,
  ◌==◌, ltb, str_eq, str_eq_iff, str_eq_refl, keep,
}
use cyandie_backend.Uuid.Unary.{tally, count_chars, count_chars-tally}
use cyandie_backend.Auth.External.{Session, Claims, RedisClient, Crypto}

unfoldable pub lookup : String → List (String × String) → Option String
lookup k [] = none
lookup k ((key, value) ∷ s) = let rest = lookup k s in if str_eq key k then some value else rest

unfoldable pub remove : String → List (String × String) → List (String × String)
remove k = keep (λ e. not (str_eq k e.0))

pub lookup-remove :
    (key k : String) (s : List (String × String))
    → lookup k (remove key s) ≡ (if str_eq key k then none else lookup k s)
unfolding lookup remove
lookup-remove key k [] = ground arith
lookup-remove key k ((j, v) ∷ s) =
    ground (arith, lookup-remove key k s, str_eq_iff key k, str_eq_iff key j, str_eq_iff j k)

pub lookup-cons :
    (key value k : String) (s : List (String × String))
    → lookup k ((key, value) ∷ s) ≡ (if str_eq key k then some value else lookup k s)
unfolding lookup
lookup-cons key value k s = ground arith

abbrev pub memory_client : RedisClient
memory_client = record {
  Store = List (String × String);
  Up = λ s. Unit {0};
  set = λ key value ttl s. (true, (key, value) ∷ s);
  get = lookup;
  del = λ key s. (true, remove key s);
  get-set = λ key value k ttl s up. lookup-cons key value k s;
  set-ok = λ key value ttl s up. refl;
  set-Up = λ key value ttl s up. tt;
  get-del = λ key k s up. lookup-remove key k s;
  del-ok = λ key s up. refl;
  del-Up = λ key s up. tt;
}

-- A text in front of another: each character is marked, and an end mark follows.
unfoldable pub write : String → String → String
write String.[] rest = String.◌∷◌ "-" rest
write (String.◌∷◌ c s) rest = String.◌∷◌ "+" (String.◌∷◌ c (write s rest))

unfoldable pub read : String → String × String
read String.[] = (String.[], String.[])
read (String.◌∷◌ m String.[]) = (String.[], String.[])
read (String.◌∷◌ m (String.◌∷◌ c s)) =
    let (a, b) = read s in if code m == 45 then (String.[], String.◌∷◌ c s) else (String.◌∷◌ c a, b)

pub read-write : (s rest : String) → read (write s rest) ≡ (s, rest)
unfolding read write
read-write String.[] String.[] = refl
read-write String.[] (String.◌∷◌ c rest) = refl
read-write (String.◌∷◌ c s) rest = rw (read-write s rest) refl

unfoldable pub marshal_session : Session → String
marshal_session s = write s.id (write s.user_id (write s.refresh_token_hash (tally s.created_at)))

unfoldable pub unmarshal_session : String → Option Session
unmarshal_session text =
    let (id, r₁) = read text in
    let (user_id, r₂) = read r₁ in
    let (hash, r₃) = read r₂ in
    some (record {
      id = id;
      user_id = user_id;
      refresh_token_hash = hash;
      created_at = count_chars r₃;
    })

pub unmarshal-marshal_session : (s : Session) → unmarshal_session (marshal_session s) ≡ some s
unfolding unmarshal_session marshal_session
unmarshal-marshal_session s =
    rw
      (
        read-write s.id (write s.user_id (write s.refresh_token_hash (tally s.created_at))),
        read-write s.user_id (write s.refresh_token_hash (tally s.created_at)),
        read-write s.refresh_token_hash (tally s.created_at),
        count_chars-tally s.created_at,
      )
      refl

unfoldable pub write_claims : Claims → String
write_claims c =
    write c.user_id
      (write c.session_id (write c.role (write (tally c.expires_at) (tally c.issued_at))))

unfoldable pub read_claims : String → Claims
read_claims text =
    let (user_id, r₁) = read text in
    let (session_id, r₂) = read r₁ in
    let (role, r₃) = read r₂ in
    let (expires, issued) = read r₃ in
    record {
      user_id = user_id;
      session_id = session_id;
      role = role;
      expires_at = count_chars expires;
      issued_at = count_chars issued;
    }

pub read-write_claims : (c : Claims) → read_claims (write_claims c) ≡ c
unfolding read_claims write_claims
read-write_claims c =
    rw
      (
        read-write c.user_id
            (write c.session_id (write c.role (write (tally c.expires_at) (tally c.issued_at)))),
        read-write c.session_id (write c.role (write (tally c.expires_at) (tally c.issued_at))),
        read-write c.role (write (tally c.expires_at) (tally c.issued_at)),
        read-write (tally c.expires_at) (tally c.issued_at),
        count_chars-tally c.expires_at,
        count_chars-tally c.issued_at,
      )
      refl

unfoldable pub valid_claims : ℕ → Claims → Option Claims
valid_claims now c = if ltb now c.expires_at then some c else none

pub valid_sign :
    (token : String) (now : ℕ) (c : Claims)
    → some (write_claims c) ≡ some token
    → now < c.expires_at
    → valid_claims now (read_claims token) ≡ some c
unfolding valid_claims
valid_sign token now c signed fresh = ground (arith, read-write_claims c, signed)

pub valid_sound :
    (token : String) (now : ℕ) (c d : Claims)
    → some (write_claims c) ≡ some token
    → valid_claims now (read_claims token) ≡ some d
    → d ≡ c
unfolding valid_claims
valid_sound token now c d signed h = ground (arith, read-write_claims c, signed, h)

pub matches_same :
    (password hash : String) → some password ≡ some hash → str_eq hash password ≡ true
matches_same password hash h = ground (arith, h, str_eq_refl hash)

abbrev pub plain_crypto : Crypto
plain_crypto = record {
  marshal_session = marshal_session;
  unmarshal_session = unmarshal_session;
  unmarshal-marshal = unmarshal-marshal_session;
  hash_password = λ password. some password;
  matches_password = str_eq;
  matches-hash = matches_same;
  hash_token = λ t. t;
  sign_token = λ secret kid c. some (write_claims c);
  parse_token = λ secret now token. valid_claims now (read_claims token);
  parse-sign = λ secret kid token now c signed fresh. valid_sign token now c signed fresh;
  parse_sound = λ secret kid token other now c d signed h. valid_sound token now c d signed h;
}
