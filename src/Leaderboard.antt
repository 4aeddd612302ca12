-- ===== src/Leaderboard.antt =====
-- internal/leaderboard/service.go: `LeaderboardService`.
pub mod External
pub mod Handlers
pub mod Memory
pub mod Numbers
pub mod Pages
pub mod Submission
use cyandie_backend.Common.{
  ℕ, suc, ◌+◌, String, Bool, true, false, ◌||◌, not, Option, none, some, List, [], ◌∷◌,
}
use Prim.Native.String.{◌++◌ as append}
use cyandie_backend.Common.Int.{ℤ, pos, negsuc, int64, ◌+ℤ◌}
use cyandie_backend.Core.Errors.{Result, ok, err, plain, fail, err_bad_request, err_not_found}
use cyandie_backend.Core.Exec.{Exec, pure, lift, gets, guard, modify, ◌>>=◌, ◌>>◌}
use cyandie_backend.Db.Rows.{row_or, value_or}
use cyandie_backend.Db.Boards.{
  BoardTables, BoardEnv, LeaderboardConfig, LeaderboardScore, get_leaderboard_config, create_score,
}
use cyandie_backend.Uuid.{UuidCodec}
use cyandie_backend.Leaderboard.External.{Float64, Ranking, SortedSets}

pub record RankEntry (Score : Type 0) : Type 0 where
  pub rank : ℤ
  pub user_id : String
  pub score : Score

pub record Boards (Score S : Type 0) : Type 0 where
  pub tables : BoardTables Score
  pub cache : S

-- `"leaderboard:" + code`
abbrev pub board_key : String → String
board_key code = append "leaderboard:" code

-- The loop that numbers the entries, its first one being `int64(offset) + int64(0) + 1`.
unfoldable pub number_from : {Score : Type 0} → ℤ → Ranking Score → List (RankEntry Score)
number_from rank [] = []
number_from rank ((member, score) ∷ r) =
    record { rank = int64 rank; user_id = member; score = score } ∷ number_from (rank +ℤ pos 1) r

module _ (fl : Float64) (z : SortedSets fl.Score) (u : UuidCodec) (env : BoardEnv) where
  -- `math.IsNaN(score) || math.IsInf(score, 0) || score < 0`
  abbrev pub is_invalid : fl.Score → Bool
  is_invalid score = fl.is_nan score || (fl.is_inf score || fl.is_negative score)

  -- `SubmitScore`
  unfoldable pub submit_score :
      String → String → fl.Score → Exec (Boards fl.Score z.Store) (Unit {0})
  unfolding get_leaderboard_config create_score
  submit_score board_code user_id score = do
    guard (not (is_invalid score)) (fail err_bad_request "invalid score value")
    uid ← lift (value_or (fail err_bad_request "invalid user id") (u.parse user_id))
    config ← λ w. (
      row_or (fail err_not_found "leaderboard not found")
          (get_leaderboard_config env board_code w.tables),
      w,
    )
    created ← λ w.
        (let (r, t) = create_score env config.id uid score w.tables in
          (row_or (err (plain "create score")) r, record w { tables = t }))
    modify (λ w. record w { cache = z.z_add (board_key config.code) score user_id w.cache })

  -- `GetRanking`
  unfoldable pub get_ranking :
      String → ℤ → ℤ → Exec (Boards fl.Score z.Store) (List (RankEntry fl.Score))
  unfolding get_leaderboard_config number_from
  get_ranking board_code limit offset = do
    config ← λ w. (
      row_or (fail err_not_found "leaderboard not found")
          (get_leaderboard_config env board_code w.tables),
      w,
    )
    results ← λ w. (
      value_or (err (plain "redis zrevrange")) (
          z.z_rev_range_with_scores (board_key board_code) offset
            (int64 (offset +ℤ limit +ℤ negsuc 0)) w.cache),
      w,
    )
    pure (number_from (offset +ℤ pos 1) results)

  -- `GetUserRank`
  unfoldable pub get_user_rank :
      String → String → Exec (Boards fl.Score z.Store) (RankEntry fl.Score)
  unfolding get_leaderboard_config
  get_user_rank board_code user_id = do
    config ← λ w. (
      row_or (fail err_not_found "leaderboard not found")
          (get_leaderboard_config env board_code w.tables),
      w,
    )
    rank ← λ w. (
      value_or (fail err_not_found "user not ranked")
          (z.z_rev_rank (board_key board_code) user_id w.cache),
      w,
    )
    score ← λ w. (
      value_or (fail err_not_found "user not ranked")
          (z.z_score (board_key board_code) user_id w.cache),
      w,
    )
    pure (record { rank = pos (rank + 1); user_id = user_id; score = score })
