-- ===== src/Db/Social/Consistency.antt =====
-- internal/db/friends.sql.go: the statements keep the tables free of doubles.
use cyandie_backend.Common.{
  ℕ, String, Bool, false, not, ◌&&◌, ◌||◌, Option, none, List, [], ◌∷◌, ◌++◌, map, ◌≡◌, arith, inl,
  inr, any, find, keep, All, ◌==◌, All-append, All-keep, All-of_find-none, All-of_any-false,
  Bool-cases, ◌∙◌,
}
use cyandie_backend.Db.Social.{
  Friendship, BlockRelation, Tables, Env, is_between, is_block_of, new_friendship, new_block,
  set_status, get_friendship_by_users_q,
}
use cyandie_backend.Db.Social

-- No two rows join the same two users, in whatever direction.
abbrev pub OnePerPair : List Friendship → Type 0
OnePerPair [] = Unit {0}
OnePerPair (f ∷ fs) = All (λ g. is_between f.user_id f.friend_id g ≡ false) fs × OnePerPair fs

-- No two rows block the same pair.
abbrev pub OnePerBlock : List BlockRelation → Type 0
OnePerBlock [] = Unit {0}
OnePerBlock (b ∷ bs) =
    All (λ c. is_block_of b.blocker_id b.blocked_id c ≡ false) bs × OnePerBlock bs

pub record IsConsistent (t : Tables) : Type 0 where
  pub pairs : OnePerPair t.friendships
  pub no_self : All (λ f. (f.user_id == f.friend_id) ≡ false) t.friendships
  pub block_pairs : OnePerBlock t.blocks

is_between_flip :
    (f g : Friendship) → is_between g.user_id g.friend_id f ≡ is_between f.user_id f.friend_id g
is_between_flip f g = ground arith

OnePerPair-snoc :
    (fs : List Friendship) (g : Friendship)
    → OnePerPair fs
    → All (λ f. is_between g.user_id g.friend_id f ≡ false) fs
    → OnePerPair (fs ++ g ∷ [])
OnePerPair-snoc [] g h new = (tt, tt)
OnePerPair-snoc (f ∷ fs) g h new = (
  All-append (λ k. is_between f.user_id f.friend_id k ≡ false) fs (g ∷ []) h.0
      (is_between_flip g f ∙ new.0, tt),
  OnePerPair-snoc fs g h.1 new.1,
)

OnePerPair-keep :
    (p : Friendship → Bool) (fs : List Friendship) → OnePerPair fs → OnePerPair (keep p fs)
OnePerPair-keep p [] h = tt
OnePerPair-keep p (f ∷ fs) h = elim (Bool-cases (p f)) [
  | inl hit ↦ rw hit (
    All-keep (λ g. is_between f.user_id f.friend_id g ≡ false) p fs h.0,
    OnePerPair-keep p fs h.1,
  )
  | inr miss ↦ rw miss (OnePerPair-keep p fs h.1)
]

-- A change of status keeps both columns of users.
All-set_status :
    (id : ℕ) (status : String) (now : ℕ) (P : ℕ → ℕ → Type 0) (fs : List Friendship)
    → All (λ f. P f.user_id f.friend_id) fs
    → All (λ f. P f.user_id f.friend_id) (map (set_status id status now) fs)
All-set_status id status now P [] h = tt
All-set_status id status now P (f ∷ fs) h = elim (Bool-cases (f.id == id)) [
  | inl hit ↦ rw hit (h.0, All-set_status id status now P fs h.1)
  | inr miss ↦ rw miss (h.0, All-set_status id status now P fs h.1)
]

OnePerPair-set_status :
    (id : ℕ) (status : String) (now : ℕ) (fs : List Friendship)
    → OnePerPair fs
    → OnePerPair (map (set_status id status now) fs)
OnePerPair-set_status id status now [] h = tt
OnePerPair-set_status id status now (f ∷ fs) h = (
  elim (Bool-cases (f.id == id)) [ inl hit ↦ rw hit apart | inr miss ↦ rw miss apart ],
  OnePerPair-set_status id status now fs h.1,
)
  where
    Apart : ℕ → ℕ → Type 0
    Apart a b =
        ((a == f.user_id && b == f.friend_id) || (a == f.friend_id && b == f.user_id)) ≡ false

    apart :
        All (λ g. is_between f.user_id f.friend_id g ≡ false) (map (set_status id status now) fs)
    apart = All-set_status id status now Apart fs h.0

OnePerBlock-snoc :
    (bs : List BlockRelation) (c : BlockRelation)
    → OnePerBlock bs
    → All (λ b. is_block_of c.blocker_id c.blocked_id b ≡ false) bs
    → OnePerBlock (bs ++ c ∷ [])
OnePerBlock-snoc [] c h new = (tt, tt)
OnePerBlock-snoc (b ∷ bs) c h new = (
  All-append (λ k. is_block_of b.blocker_id b.blocked_id k ≡ false) bs (c ∷ []) h.0
      (ground (arith, new.0), tt),
  OnePerBlock-snoc bs c h.1 new.1,
)

OnePerBlock-keep :
    (p : BlockRelation → Bool) (bs : List BlockRelation) → OnePerBlock bs → OnePerBlock (keep p bs)
OnePerBlock-keep p [] h = tt
OnePerBlock-keep p (b ∷ bs) h = elim (Bool-cases (p b)) [
  | inl hit ↦ rw hit (
    All-keep (λ c. is_block_of b.blocker_id b.blocked_id c ≡ false) p bs h.0,
    OnePerBlock-keep p bs h.1,
  )
  | inr miss ↦ rw miss (OnePerBlock-keep p bs h.1)
]

module _ (env : Env) where
  pub create_friendship-IsConsistent :
      (a b : ℕ) (status : String) (t : Tables)
      → (a == b) ≡ false
      → find (is_between a b) t.friendships ≡ none
      → IsConsistent t
      → IsConsistent (Social.create_friendship env a b status t).1
  unfolding Social.create_friendship
  create_friendship-IsConsistent a b status t ne new c =
      let f = new_friendship env a b status in
      let added : IsConsistent (record t { friendships = t.friendships ++ f ∷ [] }) = record {
        pairs =
            OnePerPair-snoc t.friendships f c.pairs
              (All-of_find-none (is_between a b) t.friendships new);
        no_self =
            All-append (λ f. (f.user_id == f.friend_id) ≡ false) t.friendships (f ∷ []) c.no_self
              (ne, tt);
        block_pairs = c.block_pairs;
      } in
      ground (arith, added, c)

  pub update_friendship_status-IsConsistent :
      (id : ℕ) (status : String) (t : Tables)
      → IsConsistent t
      → IsConsistent (Social.update_friendship_status env id status t).1
  unfolding Social.update_friendship_status
  update_friendship_status-IsConsistent id status t c =
      let changed : IsConsistent
          (record t { friendships = map (set_status id status env.now) t.friendships }) =
        record {
          pairs = OnePerPair-set_status id status env.now t.friendships c.pairs;
          no_self =
              All-set_status id status env.now (λ a b. (a == b) ≡ false) t.friendships c.no_self;
          block_pairs = c.block_pairs;
        } in
      ground (arith, changed, c)

  pub keep-IsConsistent :
      (p : Friendship → Bool) (t : Tables)
      → IsConsistent t
      → IsConsistent (record t { friendships = keep p t.friendships })
  keep-IsConsistent p t c = record {
    pairs = OnePerPair-keep p t.friendships c.pairs;
    no_self = All-keep (λ f. (f.user_id == f.friend_id) ≡ false) p t.friendships c.no_self;
    block_pairs = c.block_pairs;
  }

  pub delete_friendship-IsConsistent :
      (id : ℕ) (t : Tables) → IsConsistent t → IsConsistent (Social.delete_friendship env id t).1
  unfolding Social.delete_friendship
  delete_friendship-IsConsistent id t c =
      ground (arith, keep-IsConsistent (λ f. not (f.id == id)) t c, c)

  pub delete_friendship_by_users-IsConsistent :
      (a b : ℕ) (t : Tables)
      → IsConsistent t
      → IsConsistent (Social.delete_friendship_by_users env a b t).1
  unfolding Social.delete_friendship_by_users
  delete_friendship_by_users-IsConsistent a b t c =
      ground (arith, keep-IsConsistent (λ f. not (is_between a b f)) t c, c)

  pub create_block_relation-IsConsistent :
      (a b : ℕ) (reason : Option String) (t : Tables)
      → IsConsistent t
      → IsConsistent (Social.create_block_relation env a b reason t).1
  unfolding Social.create_block_relation
  create_block_relation-IsConsistent a b reason t c =
      elim (Bool-cases (any (is_block_of a b) t.blocks)) [
        | inl old ↦ ground (arith, old, c)
        | inr new ↦
            let r = new_block env a b reason in
            let added : IsConsistent (record t { blocks = t.blocks ++ r ∷ [] }) = record {
              pairs = c.pairs;
              no_self = c.no_self;
              block_pairs =
                  OnePerBlock-snoc t.blocks r c.block_pairs
                    (All-of_any-false (is_block_of a b) t.blocks new);
            } in
            ground (arith, new, added, c)
      ]

  pub delete_block_relation-IsConsistent :
      (a b : ℕ) (t : Tables)
      → IsConsistent t
      → IsConsistent (Social.delete_block_relation env a b t).1
  unfolding Social.delete_block_relation
  delete_block_relation-IsConsistent a b t c =
      let kept : IsConsistent (record t { blocks = keep (λ r. not (is_block_of a b r)) t.blocks }) =
        record {
          pairs = c.pairs;
          no_self = c.no_self;
          block_pairs = OnePerBlock-keep (λ r. not (is_block_of a b r)) t.blocks c.block_pairs;
        } in
      ground (arith, kept, c)
