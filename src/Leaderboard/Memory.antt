-- ===== src/Leaderboard/Memory.antt =====
-- Sorted sets in memory that meet the laws of `SortedSets`, with natural numbers for scores, for examples.
use cyandie_backend.Common.{
  ℕ, String, false, ◌&&◌, none, some, [], ◌∷◌, ◌≡◌, refl, arith, if◌then◌else◌, leb, str_eq,
  str_eq_iff, str_eq_refl,
}
use cyandie_backend.Leaderboard.External.{Float64, Ranking, SortedSets, lookup, index_of, range}

abbrev pub natural_scores : Float64
natural_scores = record {
  Score = ℕ;
  is_nan = λ n. false;
  is_inf = λ n. false;
  is_negative = λ n. false;
}

unfoldable pub remove : String → Ranking ℕ → Ranking ℕ
remove m [] = []
remove m ((k, v) ∷ r) = let rest = remove m r in if str_eq k m then rest else (k, v) ∷ rest

unfoldable pub place : String → ℕ → Ranking ℕ → Ranking ℕ
place m score [] = (m, score) ∷ []
place m score ((k, v) ∷ r) =
    let rest = place m score r in if leb v score then (m, score) ∷ (k, v) ∷ r else (k, v) ∷ rest

unfoldable pub add : String → ℕ → String → (String → Ranking ℕ) → String → Ranking ℕ
add key score member s k = if str_eq key k then place member score (remove member (s k)) else s k

lookup-remove :
    (m n : String) (r : Ranking ℕ)
    → lookup n (remove m r) ≡ (if str_eq m n then none else lookup n r)
unfolding remove
lookup-remove m n [] = ground arith
lookup-remove m n ((k, v) ∷ r) =
    ground (arith, lookup-remove m n r, str_eq_iff m n, str_eq_iff k m, str_eq_iff k n)

lookup-place :
    (m n : String) (score : ℕ) (r : Ranking ℕ)
    → lookup m r ≡ none
    → lookup n (place m score r) ≡ (if str_eq m n then some score else lookup n r)
unfolding place
lookup-place m n score [] h = refl
lookup-place m n score ((k, v) ∷ r) h =
    ground (arith, lookup-place m n score r, h, str_eq_iff m n, str_eq_iff k m, str_eq_iff k n)

pub lookup-add :
    (key member k m : String) (score : ℕ) (s : String → Ranking ℕ)
    → lookup m (add key score member s k)
      ≡ (if str_eq key k && str_eq member m then some score else lookup m (s k))
unfolding add
lookup-add key member k m score s =
    let gone = lookup-remove member member (s k) in
    let absent : lookup member (remove member (s k)) ≡ none =
      ground (arith, gone, str_eq_refl member) in
    ground (
      arith,
      lookup-place member m score (remove member (s k)) absent,
      lookup-remove member m (s k),
    )

abbrev pub memory_sets : SortedSets ℕ
memory_sets = record {
  Store = String → Ranking ℕ;
  Up = λ s. Unit {0};
  ranking = λ key s. s key;
  z_add = add;
  z_rev_rank = λ key member s. index_of member (s key);
  z_score = λ key member s. lookup member (s key);
  z_rev_range_with_scores = λ key start stop s. some (range start stop (s key));
  z_rev_rank_lem = λ key member s up. refl;
  z_score_lem = λ key member s up. refl;
  z_rev_range_lem = λ key start stop s up. refl;
  lookup-z_add = λ key member k m score s up. lookup-add key member k m score s;
  z_add-Up = λ key member score s up. tt;
}
