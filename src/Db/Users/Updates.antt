-- ===== src/Db/Users/Updates.antt =====
-- The updates of one row in internal/db/users.sql.go, as `GetUserByID` and `SearchUsers` see them afterwards.
use cyandie_backend.Common.{
  ℕ, zero, suc, String, Bool, true, false, ◌&&◌, ◌||◌, Option, none, some, List, [], ◌∷◌, ◌≡◌, refl,
  ap, sym, ◌∙◌, arith, map, find, any, any-keep, take, drop, keep, if◌then◌else◌, ◌==◌, ==_iff,
  str_eq, Option-cases, inl, inr,
}
use cyandie_backend.Common.Int.{ℤ, pos_part}
use cyandie_backend.Db.Rows.{row}
use cyandie_backend.Db.Users.{
  User, Accounts, AccountEnv, Collation, is_match, order_by_username, insert_user, get_user_by_id_q,
  get_user_by_id, update_user_status, update_user_profile, search_users, coalesce,
}

abbrev pub changed : (User → User) → Option User → Option User
changed f none = none
changed f (some u) = some (f u)

pub find-update :
    (id k : ℕ) (f : User → User) (us : List User)
    → ((u : User) → (f u).id ≡ u.id)
    → find (λ u. u.id == k) (map (λ u. if u.id == id then f u else u) us)
      ≡ (if id == k then changed f (find (λ u. u.id == k) us) else find (λ u. u.id == k) us)
find-update id k f [] same = ground arith
find-update id k f (u ∷ us) same = ground (arith, find-update id k f us same, same u)

-- After a change of status that finds a row, the user has the new status, and the other users keep theirs.
pub get_user_by_id-update_user_status :
    (env later : AccountEnv) (status : String) (id : ℕ) (t : Accounts) (v : User)
    → later.fails get_user_by_id_q ≡ false
    → (update_user_status env status id t).0 ≡ row v
    → let t' = (update_user_status env status id t).1 in
      (get_user_by_id later id t' ≡ row v) × (v.status ≡ status)
unfolding update_user_status get_user_by_id
get_user_by_id-update_user_status env later status id t v answers h =
    let f : User → User = λ u. record u { status = status } in
    let row_after = find-update id id f t.users (λ u. refl) in
    let same : (id == id) ≡ true = (==_iff id id).1 refl in
    elim (Option-cases (find (λ u. u.id == id) t.users)) [
      | inl absent ↦ ground (arith, h, row_after, same, absent)
      | inr (u, found) ↦
          let v_eq : f u ≡ v = ground (arith, h, row_after, same, found) in
          (
            ground (arith, h, row_after, same, found, answers),
            sym (ap (λ (x : User). x.status) v_eq),
          )
    ]

-- The other rows stay.
pub get_user_by_id-update_user_status_other :
    (env later : AccountEnv) (status : String) (id k : ℕ) (t : Accounts)
    → (id == k) ≡ false
    → get_user_by_id later k (update_user_status env status id t).1 ≡ get_user_by_id later k t
unfolding update_user_status get_user_by_id
get_user_by_id-update_user_status_other env later status id k t other =
    ground (arith, other, find-update id k (λ u. record u { status = status }) t.users (λ u. refl))

any-take {ℓ} :
    {A : Type ℓ} (p : A → Bool) (n : ℕ) (xs : List A) → any p xs ≡ false → any p (take n xs) ≡ false
any-take p zero xs h = refl
any-take p (suc n) [] h = refl
any-take p (suc n) (x ∷ xs) h = ground (arith, any-take p n xs, h)

any-drop {ℓ} :
    {A : Type ℓ} (p : A → Bool) (n : ℕ) (xs : List A) → any p xs ≡ false → any p (drop n xs) ≡ false
any-drop p zero xs h = h
any-drop p (suc n) [] h = refl
any-drop p (suc n) (x ∷ xs) h = any-drop p n xs (ground (arith, h))

any-insert_user :
    (p : User → Bool) (c : Collation) (u : User) (us : List User)
    → any p (insert_user c u us) ≡ (p u || any p us)
unfolding insert_user
any-insert_user p c u [] = refl
any-insert_user p c u (v ∷ vs) = ground (arith, any-insert_user p c u vs)

any-order_by_username :
    (p : User → Bool) (c : Collation) (us : List User) → any p (order_by_username c us) ≡ any p us
unfolding order_by_username
any-order_by_username p c [] = refl
any-order_by_username p c (u ∷ us) =
    ground (arith, any-insert_user p c u (order_by_username c us), any-order_by_username p c us)

any-match_update :
    (c : Collation) (query status : String) (id : ℕ) (us : List User)
    → str_eq status "active" ≡ false
    → any
        (λ u. is_match c query u && (u.id == id))
        (map (λ u. if u.id == id then record u { status = status } else u) us)
      ≡ false
any-match_update c query status id [] inactive = refl
any-match_update c query status id (u ∷ us) inactive =
    ground (arith, any-match_update c query status id us inactive, inactive)

-- A user whose status is changed to another one than "active" is in no answer of a search.
pub search_users-update_user_status :
    (env later : AccountEnv) (c : Collation) (query status : String) (limit offset : ℤ) (id : ℕ)
    (t : Accounts) (v : User) (us : List User)
    → str_eq status "active" ≡ false
    → (update_user_status env status id t).0 ≡ row v
    → search_users later c query limit offset (update_user_status env status id t).1 ≡ row us
    → any (λ u. u.id == id) us ≡ false
unfolding update_user_status search_users
search_users-update_user_status env later c query status limit offset id t v us inactive h found =
    let p : User → Bool = λ u. u.id == id in
    let users = map (λ u. if u.id == id then record u { status = status } else u) t.users in
    let matching = keep (is_match c query) users in
    let hidden : any p matching ≡ false =
      any-keep p (is_match c query) users ∙ any-match_update c query status id t.users inactive in
    let none_left =
      any-take p (pos_part limit) (drop (pos_part offset) (order_by_username c matching)) (
        any-drop p (pos_part offset) (order_by_username c matching)
          (any-order_by_username p c matching ∙ hidden)) in
    let page : take (pos_part limit) (drop (pos_part offset) (order_by_username c matching)) ≡ us =
      ground (arith, h, found) in
    ap (any p) (sym page) ∙ none_left

-- An update of a profile keeps what is not given and sets what is.
pub get_user_by_id-update_user_profile :
    (env later : AccountEnv) (display_name avatar_url : Option String) (id : ℕ) (t : Accounts)
    (v u : User)
    → later.fails get_user_by_id_q ≡ false
    → find (λ u. u.id == id) t.users ≡ some u
    → (update_user_profile env display_name avatar_url id t).0 ≡ row v
    → get_user_by_id later id (update_user_profile env display_name avatar_url id t).1
      ≡ row (record u {
        display_name = coalesce display_name u.display_name;
        avatar_url = coalesce avatar_url u.avatar_url;
      })
unfolding update_user_profile get_user_by_id
get_user_by_id-update_user_profile env later display_name avatar_url id t v u answers found h =
    let f : User → User = λ x. record x {
      display_name = coalesce display_name x.display_name;
      avatar_url = coalesce avatar_url x.avatar_url;
    } in
    ground
      (arith, h, find-update id id f t.users (λ x. refl), (==_iff id id).1 refl, found, answers)
