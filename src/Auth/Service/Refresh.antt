-- ===== src/Auth/Service/Refresh.antt =====
-- What the texts of `generateTokenPair` in internal/auth/service.go are worth to `RefreshToken` and
-- `Logout`, while Redis answers.

use text.Mathlib.TextLemmas.{append_cancel_left}
use cyandie_backend.Common.{
  ◌*◌, String, false, List, ◌≡◌, refl, sym, arith, if◌then◌else◌, str_eq, str_eq_iff, str_eq_ne,
  str_eq_refl, ap, ◌∙◌, inl, inr,
}
use cyandie_backend.Core.Errors.{Result, ok, err, plain, fail, err_session_revoked, Result-cases}
use cyandie_backend.Auth.External.{Session, RedisClient, Crypto}
use cyandie_backend.Auth.Texts.{session_id≢refresh_token}
use cyandie_backend.Auth.Sessions.{session_id, get, revoke}
use cyandie_backend.Auth.Sessions.Lifecycle.{get-create, get-revoke, create-Up, revoke-Up}
use cyandie_backend.Auth.Tokens.{JwtKey, generate_access_token}
use cyandie_backend.Auth.Service.{
  TokenPair, Moment, refresh_token_text, generate_token_pair, refresh_token, logout,
}

str_eq-session_id : (a b : String) → str_eq (session_id a) (session_id b) ≡ str_eq a b
str_eq-session_id a b = ground (
  arith,
  str_eq_iff a b,
  str_eq_iff (session_id a) (session_id b),
  append_cancel_left "sess_" a b,
)

abbrev pub missing : Result Session
missing = err (plain "session not found or expired")

module _ (x : RedisClient) (c : Crypto) (keys : List JwtKey) where
  -- No session is kept under a text of the form of a refresh token.
  abbrev pub HasNoRefreshKeys : x.Store → Type 0
  HasNoRefreshKeys s = (random : String) → get x c (refresh_token_text random) s ≡ missing

  generate_token_pair-Up :
      (m : Moment) (user_id : String) (s : x.Store)
      → x.Up s
      → x.Up (generate_token_pair x c keys m user_id s).1
  unfolding generate_token_pair
  generate_token_pair-Up m user_id s up =
      let hash = c.hash_token (refresh_token_text m.random) in
      let kept = create-Up x c m.now m.session_nanos user_id hash (7 * 24 * 60 * 60) s up in
      elim (Result-cases
        (generate_access_token c keys m.now user_id (session_id m.token_nanos) "user")) [
          | inl (access, signed) ↦ ground (arith, signed, kept)
          | inr (inl (e, failed)) ↦ ground (arith, failed, up)
          | inr (inr failed) ↦ ground (arith, failed, up)
        ]

  -- A pair that is given out: its refresh token, and the session that is stored with it.
  pub generate_token_pair-ok :
      (m : Moment) (user_id : String) (s : x.Store) (pair : TokenPair)
      → x.Up s
      → (generate_token_pair x c keys m user_id s).0 ≡ ok pair
      → (session : Session) × (pair.refresh_token ≡ refresh_token_text m.random)
        × (session.id ≡ session_id m.session_nanos)
        × (session.user_id ≡ user_id)
        × ((id : String)
            → get x c id (generate_token_pair x c keys m user_id s).1
              ≡ (if str_eq session.id id then ok session else get x c id s))
  unfolding generate_token_pair
  generate_token_pair-ok m user_id s pair up h =
      let hash = c.hash_token (refresh_token_text m.random) in
      let made = get-create x c m.now m.session_nanos user_id hash (7 * 24 * 60 * 60) s in
      let (session, created, id_eq, user_eq, got) = made "" up in
      (
        session,
        ground (arith, created, h),
        id_eq,
        user_eq,
        λ id. ground (arith, created, h, (made id up).4),
      )

  generate_token_pair_others :
      (m : Moment) (user_id : String) (s : x.Store) (id : String)
      → x.Up s
      → str_eq (session_id m.session_nanos) id ≡ false
      → get x c id (generate_token_pair x c keys m user_id s).1 ≡ get x c id s
  unfolding generate_token_pair
  generate_token_pair_others m user_id s id up other =
      let hash = c.hash_token (refresh_token_text m.random) in
      let (session, created, id_eq, user_eq, got) =
        get-create x c m.now m.session_nanos user_id hash (7 * 24 * 60 * 60) s id up in
      elim (Result-cases
        (generate_access_token c keys m.now user_id (session_id m.token_nanos) "user")) [
          | inl (access, signed) ↦
              ground (arith, signed, created, got, id_eq, ap (λ i. str_eq i id) id_eq)
          | inr (inl (e, failed)) ↦ ground (arith, failed)
          | inr (inr failed) ↦ ground (arith, failed)
        ]

  refresh_token_missing :
      (m : Moment) (id : String) (s : x.Store)
      → get x c id s ≡ missing
      → refresh_token x c keys m id s
        ≡ (fail err_session_revoked "invalid or expired refresh token", s)
  unfolding refresh_token
  refresh_token_missing m id s h = rw h refl

  -- The refresh token of every pair that is given out is refused by `RefreshToken`, which changes
  -- nothing, and the store still has no session under such a text if it had none, while Redis answers.
  pub refresh_token-generate_token_pair :
      (m later : Moment) (user_id : String) (s : x.Store) (pair : TokenPair)
      → x.Up s
      → HasNoRefreshKeys s
      → (generate_token_pair x c keys m user_id s).0 ≡ ok pair
      → (refresh_token x c keys later pair.refresh_token
            (generate_token_pair x c keys m user_id s).1
          ≡ (
            fail err_session_revoked "invalid or expired refresh token",
            (generate_token_pair x c keys m user_id s).1,
          ))
        × HasNoRefreshKeys (generate_token_pair x c keys m user_id s).1
  refresh_token-generate_token_pair m later user_id s pair up none_kept h =
      let (session, token_eq, id_eq, user_eq, got) = generate_token_pair-ok m user_id s pair up h in
      let kept : HasNoRefreshKeys (generate_token_pair x c keys m user_id s).1 = λ random. ground (
        arith,
        got (refresh_token_text random),
        none_kept random,
        ap (λ i. str_eq i (refresh_token_text random)) id_eq,
        str_eq_ne (session_id m.session_nanos) (refresh_token_text random)
            (session_id≢refresh_token m.session_nanos random),
      ) in
      (
        rw token_eq (refresh_token_missing later (refresh_token_text m.random) _ (kept m.random)),
        kept,
      )

  refresh_token_kept :
      (m : Moment) (id : String) (s : x.Store) (old : Session)
      → x.Up s
      → get x c id s ≡ ok old
      → old.id ≡ id
      → refresh_token x c keys m id s
        ≡ generate_token_pair x c keys m old.user_id (revoke x c id s).1
  unfolding refresh_token
  refresh_token_kept m id s old up kept same = rw (kept, same, (get-revoke x c id id s up).0) refl

  -- `RefreshToken` uses a session up: given the id of a kept session it leaves no session under that
  -- id, so that a second call with it is refused, unless the new session gets the very same id; and
  -- the pair it gives out, if any, comes with a session of the same user.
  pub refresh_token_once :
      (m later : Moment) (id : String) (s : x.Store) (old : Session)
      → x.Up s
      → get x c id s ≡ ok old
      → old.id ≡ id
      → str_eq (session_id m.session_nanos) id ≡ false
      → (refresh_token x c keys later id (refresh_token x c keys m id s).1 ≡ (
        fail err_session_revoked "invalid or expired refresh token",
        (refresh_token x c keys m id s).1,
      ))
        × ((pair : TokenPair)
            → (refresh_token x c keys m id s).0 ≡ ok pair
            → (new : Session) × (new.user_id ≡ old.user_id)
              × (get x c (session_id m.session_nanos) (refresh_token x c keys m id s).1 ≡ ok new))
  refresh_token_once m later id s old up kept same other =
      let s' = (revoke x c id s).1 in
      let up' = revoke-Up x c id s up in
      let whole = refresh_token_kept m id s old up kept same in
      let gone : get x c id s' ≡ missing =
        ground (arith, (get-revoke x c id id s up).1, str_eq_refl id) in
      let still = generate_token_pair_others m old.user_id s' id up' other in
      (
        rw whole (
            refresh_token_missing later id (generate_token_pair x c keys m old.user_id s').1
              (still ∙ gone)),
        λ pair h.
            let made =
              generate_token_pair-ok m old.user_id s' pair up' (ap (λ r. r.0) (sym whole) ∙ h) in
            (
              made.0,
              made.3,
              rw whole (
                  ground (
                    arith,
                    made.4 (session_id m.session_nanos),
                    ap (λ i. str_eq i (session_id m.session_nanos)) made.2,
                    str_eq_refl (session_id m.session_nanos),
                  )),
            ),
      )

  -- `Logout` with the session id that an access token carries leaves the session that was stored with
  -- the token, and its id still refreshes, whenever the two calls of `generateSessionID` differ.
  pub logout-generate_token_pair :
      (m : Moment) (user_id : String) (s : x.Store) (pair : TokenPair)
      → x.Up s
      → str_eq m.token_nanos m.session_nanos ≡ false
      → (generate_token_pair x c keys m user_id s).0 ≡ ok pair
      → (session : Session) × (session.user_id ≡ user_id)
        × (get x c
              (session_id m.session_nanos)
              (logout x c keys
                (session_id m.token_nanos)
                (generate_token_pair x c keys m user_id s).1).1
            ≡ ok session)
  unfolding logout
  logout-generate_token_pair m user_id s pair up other h =
      let made = generate_token_pair-ok m user_id s pair up h in
      let after = (generate_token_pair x c keys m user_id s).1 in
      let id = session_id m.session_nanos in
      (
        made.0,
        made.3,
        ground (
          arith,
          made.4 id,
          ap (λ i. str_eq i id) made.2,
          str_eq_refl id,
          (get-revoke x c (session_id m.token_nanos) id after
              (generate_token_pair-Up m user_id s up)).1,
          str_eq-session_id m.token_nanos m.session_nanos,
        ),
      )
