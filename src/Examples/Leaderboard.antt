-- ===== src/Examples/Leaderboard.antt =====
-- A board of internal/leaderboard with three users, over sorted sets in memory.
use cyandie_backend.Common.{
  ℕ, suc, ◌+◌, ◌<◌, String, true, false, none, List, [], ◌∷◌, ◌≡◌, ◌≢◌, refl, arith, str_eq,
  get_elem?, ltb, if◌then◌else◌,
}
use mathlib.Core.Option
use cyandie_backend.Common.Int.{pos}
use cyandie_backend.Core.Errors.{ok}
use cyandie_backend.Db.Rows.{row}
use cyandie_backend.Db.Boards.{BoardEnv, LeaderboardConfig, get_leaderboard_config, create_score}
use cyandie_backend.Uuid.Unary.{unary_codec}
use cyandie_backend.Leaderboard.External.{Ranking}
use cyandie_backend.Leaderboard.Memory.{natural_scores, memory_sets}
use cyandie_backend.Leaderboard.{
  Boards, RankEntry, board_key, submit_score, get_ranking, get_user_rank,
}
use cyandie_backend.Leaderboard.Numbers.{entry_at}
use cyandie_backend.Leaderboard.Pages.{get_ranking-page, get_ranking-get_user_rank}
use cyandie_backend.Leaderboard.Submission.{get_user_rank-submit_score}

abbrev board_env : BoardEnv
board_env = record { fails = λ q. false; is_user = λ n. true; new_id = 9; now = 100 }

abbrev arena : LeaderboardConfig
arena = record {
  id = 4;
  code = "arena";
  name = "Arena";
  update_strategy = "highest";
  max_entries = none;
  metadata = none;
  created_at = 1;
  updated_at = 1;
}

abbrev scores : Ranking ℕ
scores = ("ii", 30) ∷ ("iii", 20) ∷ ("iiii", 10) ∷ []

abbrev boards : Boards ℕ (String → Ranking ℕ)
boards = record { tables = record { configs = arena ∷ []; scores = [] }; cache = λ k. scores }

arena_found : get_leaderboard_config board_env "arena" boards.tables ≡ row arena
unfolding get_leaderboard_config
arena_found = refl

get_ranking-page_example :
    (page : List (RankEntry ℕ)) × (get_ranking natural_scores memory_sets unary_codec board_env
        "arena"
        (pos 2)
        (pos 1)
        boards
      ≡ (ok page, boards))
    × ((i : ℕ)
        → get_elem? page i
          ≡ (if ltb i 2 then Option.map (entry_at (1 + i)) (get_elem? scores (1 + i)) else none))
get_ranking-page_example =
    get_ranking-page natural_scores memory_sets unary_codec board_env "arena" 2 1 boards arena tt
      arena_found (omega arith) (omega arith)

second_place :
    get_user_rank natural_scores memory_sets unary_codec board_env "arena" "iii" boards
    ≡ (ok (record { rank = pos 2; user_id = "iii"; score = 20 }), boards)
unfolding get_user_rank get_leaderboard_config
second_place = refl

get_ranking-get_user_rank_example :
    let e : RankEntry ℕ = record { rank = pos 2; user_id = "iii"; score = 20 } in
    (n : ℕ) × (e.rank ≡ pos (suc n))
    × (e.user_id ≡ "iii")
    × (suc n < 9223372036854775808
        → get_ranking natural_scores memory_sets unary_codec board_env "arena"
            (pos 1)
            (pos n)
            boards
          ≡ (ok (e ∷ []), boards))
get_ranking-get_user_rank_example =
    get_ranking-get_user_rank natural_scores memory_sets unary_codec board_env "arena" "iii" boards
      (record { rank = pos 2; user_id = "iii"; score = 20 }) tt second_place

submitted :
    (submit_score natural_scores memory_sets unary_codec board_env "arena" "iii" 5 boards).0 ≡ ok tt
unfolding submit_score get_leaderboard_config create_score
submitted = refl

get_user_rank-submit_score_example :
    let w' =
      (submit_score natural_scores memory_sets unary_codec board_env "arena" "iii" 5 boards).1 in
    ((e : RankEntry ℕ) × ((get_user_rank natural_scores memory_sets unary_codec board_env "arena"
          "iii" w').0
        ≡ ok e)
      × (e.score ≡ 5))
    × ((other : String)
        → str_eq "iii" other ≡ false
        → memory_sets.z_score (board_key "arena") other w'.cache
          ≡ memory_sets.z_score (board_key "arena") other boards.cache)
get_user_rank-submit_score_example =
    get_user_rank-submit_score natural_scores memory_sets unary_codec board_env "arena" "iii" 5
      boards tt submitted

refused :
    (submit_score natural_scores memory_sets unary_codec board_env "attic" "iii" 5 boards).0 ≢ ok tt
unfolding submit_score get_leaderboard_config
refused h = ground (arith, h)
