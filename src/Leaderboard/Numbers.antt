-- ===== src/Leaderboard/Numbers.antt =====
-- Positions and ranks in a numbered ranking of internal/leaderboard/service.go.
use cyandie_backend.Common.{
  ℕ, zero, suc, ◌+◌, ◌-◌, ◌≤◌, ◌<◌, String, true, some, List, [], ◌∷◌, ◌≡◌, refl, ap, ◌∙◌, arith,
  str_eq, str_eq_iff, length, take, drop, get_elem?, get_elem?-take, get_elem?-drop, none,
  if◌then◌else◌, ltb, Bool-cases, Option-cases, inl, inr,
}
use mathlib.Core.Option
use cyandie_backend.Common.Int.{pos, negsuc, sub_ℕ, int64, ◌+ℤ◌}
use cyandie_backend.Leaderboard.External.{Ranking, range, lookup, index_of}
use cyandie_backend.Leaderboard.{RankEntry, number_from}

pub range-page {ℓ} :
    {A : Type ℓ} (o l : ℕ) (xs : List A) → range (pos o) (pos (o + l)) xs ≡ take (suc l) (drop o xs)
unfolding range
range-page o l xs =
    let size : suc (o + l) - o ≡ suc l = omega arith in ap (λ n. take n (drop o xs)) size

pub next_rank : (k : ℕ) → pos k +ℤ pos 1 ≡ pos (suc k)
unfolding ◌+ℤ◌
next_rank k = ground arith

pub last_index :
    (o l : ℕ)
    → o + suc l < 9223372036854775808
    → int64 (pos o +ℤ pos (suc l) +ℤ negsuc 0) ≡ pos (o + l)
unfolding ◌+ℤ◌ int64
last_index o l h = ground arith

pub negative_rank : (k : ℕ) → negsuc k +ℤ pos 1 ≡ sub_ℕ 0 k
unfolding ◌+ℤ◌
negative_rank k = ground arith

pub negative_stop :
    (limit k : ℕ)
    → 0 < limit
    → limit ≤ k + 1
    → k < 9223372036854775807
    → int64 (negsuc k +ℤ pos limit +ℤ negsuc 0) ≡ negsuc (k + 1 - limit)
unfolding ◌+ℤ◌ int64
negative_stop limit k h few fits = ground arith

pub range-negative {ℓ} :
    {A : Type ℓ} (limit k : ℕ) (xs : List A)
    → 0 < limit
    → limit ≤ k + 1
    → k < length xs
    → range (negsuc k) (negsuc (k + 1 - limit)) xs ≡ take limit (drop (length xs - suc k) xs)
unfolding range
range-negative limit k xs h few enough =
    let stop_in : ltb (k + 1 - limit) (length xs) ≡ true = ground arith in
    let start_in : ltb k (length xs) ≡ true = ground arith in
    let size : suc (length xs - suc (k + 1 - limit)) - (length xs - suc k) ≡ limit = omega arith in
    ground (arith, ap (λ n. take n (drop (length xs - suc k) xs)) size)

pub small_rank : (n : ℕ) → n + 1 < 9223372036854775808 → int64 (pos (1 + n)) ≡ pos (n + 1)
unfolding int64
small_rank n h = ground arith

first_rank : (k : ℕ) → k + 0 + 1 < 9223372036854775808 → int64 (pos (suc k)) ≡ pos (k + 0 + 1)
unfolding int64
first_rank k h = ground arith

module _ {Score : Type 0} where
  take-number_from :
      (n k : ℕ) (r : Ranking Score)
      → take n (number_from (pos k) r) ≡ number_from (pos k) (take n r)
  unfolding number_from
  take-number_from zero k r = refl
  take-number_from (suc n) k [] = refl
  take-number_from (suc n) k ((m, score) ∷ r) = rw (next_rank k) (
      ap (◌∷◌ (record { rank = int64 (pos k); user_id = m; score = score }))
        (take-number_from n (suc k) r))

  drop-number_from :
      (n k : ℕ) (r : Ranking Score)
      → drop n (number_from (pos k) r) ≡ number_from (pos (k + n)) (drop n r)
  unfolding number_from
  drop-number_from zero k r = ap (λ i. number_from (pos i) r) (omega arith)
  drop-number_from (suc n) k [] = refl
  drop-number_from (suc n) k ((m, score) ∷ r) =
      let sum : suc k + n ≡ k + suc n = omega arith in
      rw (next_rank k) (drop-number_from n (suc k) r ∙ ap (λ i. number_from (pos i) (drop n r)) sum)

  pub page_numbers :
      (o l : ℕ) (r : Ranking Score)
      → take (suc l) (drop o (number_from (pos 1) r))
        ≡ number_from (pos (suc o)) (take (suc l) (drop o r))
  page_numbers o l r =
      ap (take (suc l)) (drop-number_from o 1 r)
      ∙ take-number_from (suc l) (1 + o) (drop o r)
      ∙ ap (λ k. number_from (pos k) (take (suc l) (drop o r))) (omega arith)

  -- What a place of a ranking, counted from 0, stands for.
  abbrev pub entry_at : ℕ → String × Score → RankEntry Score
  entry_at i (member, score) = record { rank = pos (i + 1); user_id = member; score = score }

  get_elem?-number_from :
      (i k : ℕ) (r : Ranking Score)
      → k + i + 1 < 9223372036854775808
      → get_elem? (number_from (pos (suc k)) r) i ≡ Option.map (entry_at (k + i)) (get_elem? r i)
  unfolding number_from
  get_elem?-number_from i k [] fits = refl
  get_elem?-number_from zero k ((m, score) ∷ r) fits =
      ap (λ n. some (record { rank = n; user_id = m; score = score })) (first_rank k fits)
  get_elem?-number_from (suc i) k ((m, score) ∷ r) fits =
      let place : suc k + i ≡ k + suc i = omega arith in
      rw (next_rank (suc k)) (
        get_elem?-number_from i (suc k) r (omega arith)
        ∙ ap (λ n. Option.map (entry_at n) (get_elem? r i)) place)

  pub page_entry :
      (limit offset i : ℕ) (r : Ranking Score)
      → offset + limit < 9223372036854775808
      → get_elem? (take limit (drop offset (number_from (pos 1) r))) i ≡ (
          if ltb i limit
          then Option.map (entry_at (offset + i)) (get_elem? r (offset + i))
          else none)
  page_entry limit offset i r fits =
      get_elem?-take limit i (drop offset (number_from (pos 1) r))
      ∙ elim (Bool-cases (ltb i limit)) [
        | inl inside ↦
            let place : 0 + (offset + i) ≡ offset + i = omega arith in
            rw inside (
              get_elem?-drop offset i (number_from (pos 1) r)
              ∙ get_elem?-number_from (offset + i) 0 r (ground (arith, inside, fits))
              ∙ ap (λ n. Option.map (entry_at n) (get_elem? r (offset + i))) place)
        | inr outside ↦ rw outside refl
      ]

  -- The part of the numbered ranking from the position of a member.
  pub numbered_at :
      (n k : ℕ) (m : String) (score : Score) (r : Ranking Score)
      → index_of m r ≡ some n
      → lookup m r ≡ some score
      → take 1 (drop n (number_from (pos k) r))
        ≡ record { rank = int64 (pos (k + n)); user_id = m; score = score } ∷ []
  unfolding number_from
  numbered_at n k m score [] at found = cc
  numbered_at n k m score ((j, v) ∷ r) at found = elim (Bool-cases (str_eq j m)) [
    | inl hit ↦
        let first : n ≡ 0 = ground (arith, hit, at) in
        let same : j ≡ m = (str_eq_iff j m).0 hit in
        let value : v ≡ score = ground (arith, hit, found) in
        let place : k + 0 ≡ k = omega arith in rw (first, same, value, place) refl
    | inr miss ↦ elim (Option-cases (index_of m r)) [
      | inl absent ↦ ground (arith, miss, absent, at)
      | inr (i, there) ↦
          let next : n ≡ suc i = ground (arith, miss, there, at) in
          let place : suc k + i ≡ k + suc i = omega arith in
          rw (next, next_rank k)
            (numbered_at i (suc k) m score r there (ground (arith, miss, found))
              ∙ ap (λ p. record { rank = int64 (pos p); user_id = m; score = score } ∷ []) place)
    ]
  ]
