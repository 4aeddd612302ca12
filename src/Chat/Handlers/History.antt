-- ===== src/Chat/Handlers/History.antt =====
-- Who reads the messages of a room by internal/chat/handler.go, and how many.
use cyandie_backend.Common.{
  ℕ, zero, suc, ◌≤◌, String, Bool, true, false, ◌&&◌, Option, none, some, List, [], ◌∷◌, ◌≡◌, refl,
  sym, ap, ◌∙◌, subst, arith, str_eq, str_eq_iff, ◌++◌, ltb, any, any-append, any-keep, keep,
  length, take, drop, ◌==◌, ==_iff, Bool-cases, Option-cases, inl, inr,
}
use cyandie_backend.Common.Int.{ℤ, pos, negsuc}
use cyandie_backend.Core.Http.{sends}
use cyandie_backend.Db.Rows.{DbResult-cases, row, null_string, order_desc}
use cyandie_backend.Db.Rooms.{
  ChatRoom, ChatRoomMember, ChatMessage, Tables, Env, get_room_members_q, get_chat_messages_q,
  new_member, create_chat_room, add_room_member, get_room_members, get_chat_messages,
}
use cyandie_backend.Uuid.{UuidCodec}
use cyandie_backend.Chat.Handlers.{
  CreateRoomRequest, limit_of, offset_of, is_member, create_room, get_messages,
}

limit_of_bound : (l : Option ℤ) → limit_of l ≤ 200
limit_of_bound none = omega arith
limit_of_bound (some (negsuc n)) = omega arith
limit_of_bound (some (pos zero)) = omega arith
limit_of_bound (some (pos (suc n))) = elim (Bool-cases (ltb 200 (suc n))) [
  | inl above ↦ ground (arith, above)
  | inr below ↦ ground (arith, below)
]

take_bound {ℓ} : {A : Type ℓ} (n : ℕ) (xs : List A) → length (take n xs) ≤ n
take_bound zero xs = omega arith
take_bound (suc n) [] = omega arith
take_bound (suc n) (x ∷ xs) = let rest = take_bound n xs in omega arith

get_chat_messages_bound :
    (env : Env) (room_id limit offset : ℕ) (t : Tables) (ms : List ChatMessage)
    → get_chat_messages env room_id limit offset t ≡ row ms
    → length ms ≤ limit
unfolding get_chat_messages
get_chat_messages_bound env room_id limit offset t ms h =
    let page = take limit (
      drop offset (order_desc (λ m. m.created_at) (keep (λ m. m.room_id == room_id) t.messages))) in
    let same : page ≡ ms = ground (arith, h) in
    subst (λ (xs : List ChatMessage). length xs ≤ limit) same (take_bound limit _)

get_room_members-row :
    (env : Env) (id : ℕ) (t : Tables) (members : List ChatRoomMember)
    → get_room_members env id t ≡ row members
    → keep (λ m. m.room_id == id) t.members ≡ members
unfolding get_room_members
get_room_members-row env id t members h = ground (arith, h)

module _ (u : UuidCodec) (env : Env) where
  -- Messages are sent to members of the room only, at most 200 at a time, and reading changes nothing.
  pub get_messages-members :
      (user_id room : String) (limit offset : Option ℤ) (t : Tables) (ms : List ChatMessage)
      → (get_messages u env user_id room limit offset t).0 ≡ sends 200 ms
      → (id : ℕ) × (u.parse room ≡ some id)
        × (any (λ m. (m.room_id == id) && str_eq (u.format m.user_id) user_id) t.members ≡ true)
        × (length ms ≤ 200)
        × ((get_messages u env user_id room limit offset t).1 ≡ t)
  unfolding get_messages
  get_messages-members user_id room limit offset t ms h = elim (Bool-cases (str_eq user_id "")) [
    | inl nobody ↦ ground (arith, nobody, h)
    | inr known ↦ elim (Option-cases (u.parse room)) [
      | inl bad ↦ ground (arith, known, bad, h)
      | inr (id, parsed) ↦ elim (DbResult-cases (get_room_members env id t)) [
        | inr (inl missing) ↦ ground (arith, known, parsed, missing, h)
        | inr (inr broken) ↦ ground (arith, known, parsed, broken, h)
        | inl (members, found) ↦ elim (Bool-cases (is_member u env user_id members)) [
          | inr stranger ↦ ground (arith, known, parsed, found, stranger, h)
          | inl member ↦
              elim (DbResult-cases
                (get_chat_messages env id (limit_of limit) (offset_of offset) t)) [
                  | inr (inl missing) ↦ ground (arith, known, parsed, found, member, missing, h)
                  | inr (inr broken) ↦ ground (arith, known, parsed, found, member, broken, h)
                  | inl (page, read) ↦
                      let same : page ≡ ms =
                        ground (arith, known, parsed, found, member, read, h) in
                      let few =
                        get_chat_messages_bound env id (limit_of limit) (offset_of offset) t page
                          read in
                      let at_most = limit_of_bound limit in
                      let inside : any (λ m. str_eq (u.format m.user_id) user_id)
                            (keep (λ m. m.room_id == id) t.members)
                          ≡ true =
                        ap (any (λ m. str_eq (u.format m.user_id) user_id))
                          (get_room_members-row env id t members found)
                        ∙ member in
                      (
                        id,
                        parsed,
                        sym (
                              any-keep (λ m. str_eq (u.format m.user_id) user_id)
                                (λ m. m.room_id == id) t.members)
                            ∙ inside,
                        subst (λ (xs : List ChatMessage). length xs ≤ 200) same
                            (omega (arith, few, at_most)),
                        refl,
                      )
                ]
        ]
      ]
    ]
  ]

  add_room_member-is_member :
      (e : Env) (room_id uid : ℕ) (user_id : String) (t : Tables) (m : ChatRoomMember)
      → u.format uid ≡ user_id
      → (add_room_member e room_id uid "owner" t).0 ≡ row m
      → is_member u e user_id
          (keep (λ m. m.room_id == room_id) (add_room_member e room_id uid "owner" t).1.members)
        ≡ true
  unfolding add_room_member
  add_room_member-is_member e room_id uid user_id t m canonical h =
      let p : ChatRoomMember → Bool = λ n. str_eq (u.format n.user_id) user_id in
      let q : ChatRoomMember → Bool = λ n. n.room_id == room_id in
      let own : str_eq (u.format uid) user_id ≡ true =
        (str_eq_iff (u.format uid) user_id).1 canonical in
      ground (
        arith,
        h,
        own,
        (==_iff room_id room_id).1 refl,
        any-keep p q (t.members ++ new_member e room_id uid "owner" ∷ []),
        any-append (λ n. q n && p n) t.members (new_member e room_id uid "owner" ∷ []),
      )

  read_by_member :
      (later : Env) (user_id : String) (room_id : ℕ) (limit offset : Option ℤ) (t : Tables)
      → str_eq user_id "" ≡ false
      → later.fails get_room_members_q ≡ false
      → later.fails get_chat_messages_q ≡ false
      → is_member u later user_id (keep (λ m. m.room_id == room_id) t.members) ≡ true
      → (ms : List ChatMessage) × (get_messages u later user_id (u.format room_id) limit offset t
          ≡ (sends 200 ms, t))
  unfolding get_messages get_room_members get_chat_messages
  read_by_member later user_id room_id limit offset t known members_answer messages_answer member =
      (
        take (limit_of limit) (
            drop (offset_of offset)
              (order_desc (λ m. m.created_at) (keep (λ m. m.room_id == room_id) t.messages))),
        rw (known, u.parse-format room_id, members_answer, member, messages_answer) refl,
      )

  -- Whoever creates a room reads its messages: after `createRoom` has sent the room, `getMessages` sends the
  -- creator a page of it, provided that the ID in the token is in the canonical form and the queries answer.
  pub get_messages-create_room :
      (later : Env) (user_id : String) (uid : ℕ) (req : CreateRoomRequest) (room : ChatRoom)
      (limit offset : Option ℤ) (t : Tables)
      → u.parse user_id ≡ some uid
      → u.format uid ≡ user_id
      → later.fails get_room_members_q ≡ false
      → later.fails get_chat_messages_q ≡ false
      → (create_room u env user_id (some req) t).0 ≡ sends 201 room
      → let t' = (create_room u env user_id (some req) t).1 in
        (ms : List ChatMessage) × (get_messages u later user_id (u.format room.id) limit offset t'
          ≡ (sends 200 ms, t'))
  unfolding create_room
  get_messages-create_room later user_id uid req room limit offset t parsed canonical members_answer
        messages_answer h =
      let made =
        create_chat_room env req.room_type (null_string req.name) (null_string req.metadata) t in
      elim (Bool-cases (str_eq user_id "")) [
        | inl nobody ↦ ground (arith, nobody, h)
        | inr known ↦ elim (DbResult-cases made.0) [
          | inr (inl missing) ↦ ground (arith, known, missing, h)
          | inr (inr broken) ↦ ground (arith, known, broken, h)
          | inl (r, created) ↦
              let added = add_room_member env r.id uid "owner" made.1 in
              elim (DbResult-cases added.0) [
                | inr (inl missing) ↦ ground (arith, known, created, parsed, missing, h)
                | inr (inr broken) ↦ ground (arith, known, created, parsed, broken, h)
                | inl (m, entered) ↦
                    let same : r ≡ room = ground (arith, known, created, parsed, entered, h) in
                    let (ms, read) =
                      read_by_member later user_id r.id limit offset added.1 known members_answer
                        messages_answer
                        (add_room_member-is_member env r.id uid user_id made.1 m canonical
                          entered) in
                    (ms, rw (known, created, parsed, sym same) read)
              ]
        ]
      ]
