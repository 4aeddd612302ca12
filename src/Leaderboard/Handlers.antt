-- ===== src/Leaderboard/Handlers.antt =====
-- internal/leaderboard/handler.go: the handlers of `Handler`. A body that does not decode is none.
use cyandie_backend.Common.{zero, suc, String, Option, List, if◌then◌else◌, ltb}
use cyandie_backend.Common.Int.{ℤ, pos, negsuc}
use cyandie_backend.Core.Http.{
  Handler, respond_plain, with_body, with_user, finish, respond_ok_plain,
}
use cyandie_backend.Db.Boards.{BoardEnv}
use cyandie_backend.Uuid.{UuidCodec}
use cyandie_backend.Leaderboard.External.{Float64, SortedSets}
use cyandie_backend.Leaderboard.{Boards, RankEntry}
use cyandie_backend.Leaderboard

-- The limit, given what `limit, _ := strconv.Atoi(text)` leaves in it.
abbrev pub limit_of : ℤ → ℤ
limit_of (pos zero) = pos 20
limit_of (pos (suc n)) = if ltb 100 (suc n) then pos 20 else pos (suc n)
limit_of (negsuc n) = pos 20

module _ (fl : Float64) (z : SortedSets fl.Score) (u : UuidCodec) (env : BoardEnv) where
  -- `getRanking`, given the two numbers that `strconv.Atoi` leaves
  unfoldable pub get_ranking :
      String → ℤ → ℤ → Handler (Boards fl.Score z.Store) (List (RankEntry fl.Score))
  get_ranking code limit offset =
      finish (respond_plain 200) (Leaderboard.get_ranking fl z u env code (limit_of limit) offset)

  -- `submitScore`
  unfoldable pub submit_score :
      String → String → Option fl.Score → Handler (Boards fl.Score z.Store) String
  submit_score user_id code body = with_user user_id (
      with_body body
        λ score. finish respond_ok_plain (Leaderboard.submit_score fl z u env code user_id score))

  -- `getMyRank`
  unfoldable pub get_my_rank :
      String → String → Handler (Boards fl.Score z.Store) (RankEntry fl.Score)
  get_my_rank user_id code =
      with_user user_id
        (finish (respond_plain 200) (Leaderboard.get_user_rank fl z u env code user_id))
