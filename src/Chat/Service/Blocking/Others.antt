-- ===== src/Chat/Service/Blocking/Others.antt =====
-- `BlockChecker` of internal/friends/module.go: which blocks `handleSendMessage` of internal/chat/service.go
-- goes by.
use cyandie_backend.Common.{
  ℕ, String, Bool, true, false, ◌&&◌, some, [], ◌∷◌, ◌≡◌, arith, str_eq, str_eq_iff, any, ◌==◌, ap,
  ◌↔◌, ◌≢◌, sym, str_eq_ne, Option-cases, subst, Bool-cases, if◌then◌else◌, ◌++◌, find-snoc_miss,
  any-keep, any-some, any-of_some, ◌∙◌, inl, inr,
}
use mathlib.Core.List.{Memᴰ}
use cyandie_backend.Core.Errors.{Result, ok, err, panicked}
use cyandie_backend.Db.Social.{BlockRelation, is_block_of, new_block}
use cyandie_backend.Db.Social
use cyandie_backend.Db.Rows.{null_string}
use cyandie_backend.Db.Rooms.{Env, ChatRoomMember, get_room_members_q}
use cyandie_backend.Db.Rooms
use cyandie_backend.Uuid.{UuidCodec}
use cyandie_backend.Friends.Redis.{Redis}
use cyandie_backend.Friends.State.{FriendsService, World, blocked_key}
use cyandie_backend.Friends.Blocks.{block, is_blocked}
use cyandie_backend.Friends.Blocks.Roundtrip.{block-parsed, block_writes}
use cyandie_backend.Friends.Blocks.Cache.{str_eq-blocked_key}
use cyandie_backend.Chat.Messages.{Protobuf}
use cyandie_backend.Chat.Service.Hub.{ChatService, Hub}
use cyandie_backend.Chat.Service.Messages.{is_stopped, stops}
use cyandie_backend.Chat.Service.Blocking.{true_or_false, block_checker}

true_or_false-ok : (r : Result Bool) → (true_or_false r ≡ true) ↔ (r ≡ ok true)
true_or_false-ok (ok b) = (ap ok, ap true_or_false)
true_or_false-ok (err e) = (λ h. cc, λ h. cc)
true_or_false-ok panicked = (λ h. cc, λ h. cc)

number_ne : {a b : ℕ} → a ≢ b → (a == b) ≡ false
number_ne {a} {b} h = elim (Bool-cases (a == b)) [
  | inl same ↦ absurd (h (ground (arith, same)))
  | inr apart ↦ apart
]

module _ (x : Redis) (u : UuidCodec) (friends : FriendsService) where
  -- A set of another user and a row of another blocker change no answer of `IsBlocked`.
  is_blocked_apart :
      (later : Social.Env) (sender member key blocked : String) (b : BlockRelation)
      (w w' : World x.Store)
      → x.Up w.cache
      → str_eq key (blocked_key sender) ≡ false
      → ((sid : ℕ) → u.parse sender ≡ some sid → (b.blocker_id == sid) ≡ false)
      → w'.cache ≡ (if friends.has_rdb then x.s_add key blocked w.cache else w.cache)
      → w'.tables.blocks ≡ w.tables.blocks ++ b ∷ []
      → (is_blocked x u friends later sender member w').0
        ≡ (is_blocked x u friends later sender member w).0
  unfolding is_blocked
  is_blocked_apart later sender member key blocked b w w' up apart strange cache blocks =
      let cached = x.s_is_member-s_add key blocked (blocked_key sender) member w.cache up in
      elim (Option-cases (u.parse sender)) [
        | inl nobody ↦ ground (arith, nobody, cached, apart, cache)
        | inr (sid, es) ↦ elim (Option-cases (u.parse member)) [
          | inl no_member ↦ ground (arith, es, no_member, cached, apart, cache)
          | inr (mid, em) ↦
              let missed : is_block_of sid mid b ≡ false = ground (arith, strange sid es) in
              ground (
                arith,
                es,
                em,
                cached,
                apart,
                cache,
                blocks,
                find-snoc_miss (is_block_of sid mid) w.tables.blocks b missed,
              )
        ]
      ]

  -- `Block` changes no answer about the blocks of anybody but the blocker.
  is_blocked-block_other :
      (earlier later : Social.Env) (blocker blocked reason sender member : String)
      (w : World x.Store)
      → x.Up w.cache
      → u.parse sender ≢ u.parse blocker
      → (block x u friends earlier blocker blocked reason w).0 ≡ ok tt
      → (is_blocked x u friends later sender member
          (block x u friends earlier blocker blocked reason w).1).0
        ≡ (is_blocked x u friends later sender member w).0
  is_blocked-block_other earlier later blocker blocked reason sender member w up other done =
      let (bid, blid, eb, ed) = block-parsed x u friends earlier blocker blocked reason w done in
      let apart : str_eq blocker sender ≡ false =
        str_eq_ne blocker sender (λ e. other (ap u.parse (sym e))) in
      let (cache, blocks) =
        block_writes x u friends earlier bid blid blocker blocked reason w eb ed done in
      is_blocked_apart later sender member (blocked_key blocker) blocked
        (new_block earlier bid blid (null_string reason)) w
        (block x u friends earlier blocker blocked reason w).1 up
        (str_eq-blocked_key blocker sender ∙ apart)
        (λ sid es. number_ne (λ e. other (es ∙ ap some (sym e) ∙ sym eb))) cache blocks

module _ (p : Protobuf) (u : UuidCodec) (svc : ChatService) (env : Env) where
  -- The loop as a search of the table of members.
  is_stopped-any :
      (asks : String → String → Bool) (room : ℕ) (h : Hub)
      → svc.block_checker ≡ some asks
      → env.fails get_room_members_q ≡ false
      → is_stopped p u svc env room h
        ≡ any (λ m. m.room_id == room && stops p u svc env h.conn.user_id asks m) h.tables.members
  unfolding is_stopped Rooms.get_room_members
  is_stopped-any asks room h given members =
      rw (given, members)
        (any-keep (stops p u svc env h.conn.user_id asks) (λ m. m.room_id == room) h.tables.members)

module _ (p : Protobuf) (u : UuidCodec) (x : Redis) (friends : FriendsService) (svc : ChatService)
    (env : Env) where
  -- After `Block` by another user than the sender returns without an error, and while Redis and the list of
  -- members answer, a message of the sender is stopped exactly when the room has a member row of another user
  -- about whom `IsBlocked` said yes to the sender before: a block of the sender by a member has no effect.
  pub is_stopped-block :
      (earlier later : Social.Env) (blocker blocked reason : String) (room : ℕ) (w : World x.Store)
      (h : Hub)
      → x.Up w.cache
      → u.parse h.conn.user_id ≢ u.parse blocker
      → (block x u friends earlier blocker blocked reason w).0 ≡ ok tt
      → svc.block_checker
        ≡ some
            (block_checker x u friends later (block x u friends earlier blocker blocked reason w).1)
      → env.fails get_room_members_q ≡ false
      → (is_stopped p u svc env room h ≡ true) ↔ (
          (m : ChatRoomMember) × Memᴰ m h.tables.members
          × (m.room_id ≡ room)
          × (u.format m.user_id ≢ h.conn.user_id)
          × ((is_blocked x u friends later h.conn.user_id (u.format m.user_id) w).0 ≡ ok true))
  unfolding block_checker
  is_stopped-block earlier later blocker blocked reason room w h up other done given members =
      let asks =
        block_checker x u friends later (block x u friends earlier blocker blocked reason w).1 in
      let same : (m : ChatRoomMember)
          → (asks h.conn.user_id (u.format m.user_id) ≡ true)
            ↔ ((is_blocked x u friends later h.conn.user_id (u.format m.user_id) w).0 ≡ ok true) =
        λ m.
          subst
            (λ r.
              (true_or_false r ≡ true)
              ↔ ((is_blocked x u friends later h.conn.user_id (u.format m.user_id) w).0 ≡ ok true))
            (sym (
              is_blocked-block_other x u friends earlier later blocker blocked reason h.conn.user_id
                (u.format m.user_id) w up other done))
            (true_or_false-ok
              (is_blocked x u friends later h.conn.user_id (u.format m.user_id) w).0) in
      let meaning = is_stopped-any p u svc env asks room h given members in
      (
        λ stopped.
            let (m, there, hit) = any-some _ h.tables.members (sym meaning ∙ stopped) in
            (
              m,
              there,
              ground (arith, hit),
              λ own. ground (arith, hit, own, str_eq_iff (u.format m.user_id) h.conn.user_id),
              (same m).0 (ground (arith, hit)),
            ),
        λ (m, there, here, other_user, said).
            meaning
            ∙ any-of_some _ m h.tables.members there (
                ground (
                  arith,
                  here,
                  (same m).1 said,
                  str_eq_ne (u.format m.user_id) h.conn.user_id other_user,
                )),
      )
