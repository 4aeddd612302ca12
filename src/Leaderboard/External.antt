-- ===== src/Leaderboard/External.antt =====
-- What internal/leaderboard calls and does not implement: float64, and the sorted sets of Redis behind the
-- service's interface `redisClient`, with the behaviour that the documentation of Redis gives.
use cyandie_backend.Common.{
  ℕ, suc, ◌-◌, String, Bool, ◌&&◌, Option, none, some, List, [], ◌∷◌, ◌≡◌, if◌then◌else◌, ltb,
  str_eq, length, take, drop,
}
use cyandie_backend.Common.Int.{ℤ, pos, negsuc}

-- The tests that the service makes of a float64; its values are those of `Score`.
pub record Float64 : Type 1 where
  pub Score : Type 0
  pub is_nan : Score → Bool
  pub is_inf : Score → Bool
  pub is_negative : Score → Bool

-- A sorted set seen from its highest member: no law says how ties are broken.
abbrev pub Ranking : Type 0 → Type 0
Ranking Score = List (String × Score)

abbrev pub shifted : Option ℕ → Option ℕ
shifted none = none
shifted (some n) = some (suc n)

module _ {Score : Type 0} where
  abbrev pub lookup : String → Ranking Score → Option Score
  lookup m [] = none
  lookup m ((k, score) ∷ r) = if str_eq k m then some score else lookup m r

  -- The number of members in front of a member.
  abbrev pub index_of : String → Ranking Score → Option ℕ
  index_of m [] = none
  index_of m ((k, score) ∷ r) = if str_eq k m then some 0 else shifted (index_of m r)

-- An index of a range: a negative one counts from the end.
abbrev pub from_end : ℕ → ℤ → ℤ
from_end n (pos i) = pos i
from_end n (negsuc i) = if ltb i n then pos (n - suc i) else negsuc i

-- The range from a start index to a stop index, both included, of ZREVRANGE.
unfoldable pub range {ℓ} : {A : Type ℓ} → ℤ → ℤ → List A → List A
range start stop xs = elim (from_end (length xs) stop) [
  | negsuc j ↦ []
  | pos j ↦ elim (from_end (length xs) start) [
    | negsuc i ↦ take (suc j) xs
    | pos i ↦ take (suc j - i) (drop i xs)
  ]
]

pub record SortedSets (Score : Type 0) : Type 1 where
  pub Store : Type 0
  pub Up : Store → Type 0
  -- What the server holds under a key.
  pub ranking : String → Store → Ranking Score
  -- ZADD of one member; every caller drops the error.
  pub z_add : String → Score → String → Store → Store
  -- `none` is `redis.Nil` or another error.
  pub z_rev_rank : String → String → Store → Option ℕ
  pub z_score : String → String → Store → Option Score
  pub z_rev_range_with_scores : String → ℤ → ℤ → Store → Option (Ranking Score)
  pub z_rev_rank_lem :
      (key member : String) (s : Store)
      → Up s
      → z_rev_rank key member s ≡ index_of member (ranking key s)
  pub z_score_lem :
      (key member : String) (s : Store)
      → Up s
      → z_score key member s ≡ lookup member (ranking key s)
  pub z_rev_range_lem :
      (key : String) (start stop : ℤ) (s : Store)
      → Up s
      → z_rev_range_with_scores key start stop s ≡ some (range start stop (ranking key s))
  -- ZADD sets the score of its member and leaves the others'.
  pub lookup-z_add :
      (key member k m : String) (score : Score) (s : Store)
      → Up s
      → lookup m (ranking k (z_add key score member s))
        ≡ (if str_eq key k && str_eq member m then some score else lookup m (ranking k s))
  pub z_add-Up :
      (key member : String) (score : Score) (s : Store) → Up s → Up (z_add key score member s)
