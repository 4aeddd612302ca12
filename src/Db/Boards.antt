-- ===== src/Db/Boards.antt =====
-- internal/db/leaderboard.sql.go over the tables `leaderboard_configs` and `leaderboard_scores`, with the
-- keys that migrations/ declares.
use cyandie_backend.Common.{
  ℕ, String, Bool, not, ◌&&◌, ◌||◌, List, [], ◌∷◌, ◌++◌, Option, if◌then◌else◌, ◌==◌, str_eq, find,
  any,
}
use cyandie_backend.Db.Rows.{DbResult, row, failed, first_row}

pub record LeaderboardConfig : Type 0 where
  pub id : ℕ
  pub code : String
  pub name : String
  pub update_strategy : String
  pub max_entries : Option ℕ
  pub metadata : Option String
  pub created_at : ℕ
  pub updated_at : ℕ

pub record LeaderboardScore (Score : Type 0) : Type 0 where
  pub id : ℕ
  pub board_id : ℕ
  pub user_id : ℕ
  pub score : Score
  pub submitted_at : ℕ

pub record BoardTables (Score : Type 0) : Type 0 where
  pub configs : List LeaderboardConfig
  pub scores : List (LeaderboardScore Score)

pub data BoardQuery : Type 0 where
  create_leaderboard_config_q get_leaderboard_config_q create_score_q : BoardQuery

-- Which statements break, the users that exist, the next key and the clock.
pub record BoardEnv : Type 0 where
  pub fails : BoardQuery → Bool
  pub is_user : ℕ → Bool
  pub new_id : ℕ
  pub now : ℕ

abbrev pub new_score : {Score : Type 0} → BoardEnv → ℕ → ℕ → Score → LeaderboardScore Score
new_score env board_id user_id score = record {
  id = env.new_id;
  board_id = board_id;
  user_id = user_id;
  score = score;
  submitted_at = env.now;
}

module _ {Score : Type 0} (env : BoardEnv) where
  -- `code` is unique.
  unfoldable pub create_leaderboard_config :
      String
      → String
      → String
      → Option ℕ
      → Option String
      → BoardTables Score
      → DbResult LeaderboardConfig × BoardTables Score
  create_leaderboard_config code name update_strategy max_entries metadata t =
      if env.fails create_leaderboard_config_q || any (λ c. str_eq c.code code) t.configs
      then (failed, t)
      else (let c : LeaderboardConfig = record {
        id = env.new_id;
        code = code;
        name = name;
        update_strategy = update_strategy;
        max_entries = max_entries;
        metadata = metadata;
        created_at = env.now;
        updated_at = env.now;
      } in
          (row c, record t { configs = t.configs ++ c ∷ [] }))

  unfoldable pub get_leaderboard_config : String → BoardTables Score → DbResult LeaderboardConfig
  get_leaderboard_config code t =
      if env.fails get_leaderboard_config_q
      then failed
      else first_row (find (λ c. str_eq c.code code) t.configs)

  -- Both references hold.
  unfoldable pub create_score :
      ℕ → ℕ → Score → BoardTables Score → DbResult (LeaderboardScore Score) × BoardTables Score
  create_score board_id user_id score t =
      if env.fails create_score_q
        || not (any (λ c. c.id == board_id) t.configs && env.is_user user_id)
      then (failed, t)
      else (let s = new_score env board_id user_id score in
          (row s, record t { scores = t.scores ++ s ∷ [] }))
