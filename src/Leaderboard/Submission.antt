-- ===== src/Leaderboard/Submission.antt =====
-- `SubmitScore` of internal/leaderboard/service.go, as `GetUserRank` sees it afterwards.
use cyandie_backend.Common.{
  ℕ, suc, ◌+◌, String, false, some, [], ◌∷◌, ◌++◌, ◌≡◌, ◌≢◌, refl, ap, sym, arith, str_eq,
  str_eq_iff, str_eq_refl, find, find-some_test, Bool-cases, Option-cases, inl, inr,
}
use cyandie_backend.Common.Int.{pos}
use cyandie_backend.Core.Errors.{ok}
use cyandie_backend.Db.Rows.{DbResult-cases, row}
use cyandie_backend.Db.Boards.{
  BoardTables, BoardEnv, LeaderboardConfig, get_leaderboard_config, new_score,
}
use cyandie_backend.Uuid.{UuidCodec}
use cyandie_backend.Leaderboard.External.{Float64, Ranking, SortedSets, lookup, index_of}
use cyandie_backend.Leaderboard.{
  Boards, RankEntry, board_key, is_invalid, submit_score, get_user_rank,
}

get_leaderboard_config_code :
    {Score : Type 0} (env : BoardEnv) (code : String) (t : BoardTables Score)
    (c : LeaderboardConfig)
    → get_leaderboard_config env code t ≡ row c
    → c.code ≡ code
unfolding get_leaderboard_config
get_leaderboard_config_code env code t c h =
    elim (Option-cases (find (λ d. str_eq d.code code) t.configs)) [
      | inl absent ↦ ground (arith, absent)
      | inr (d, found) ↦
          let same : d.code ≡ code =
            (str_eq_iff d.code code).0 (find-some_test (λ e. str_eq e.code code) t.configs found) in
          ground (arith, found, same)
    ]

get_leaderboard_config_kept :
    {Score : Type 0} (env : BoardEnv) (code : String) (t t' : BoardTables Score)
    → t.configs ≡ t'.configs
    → get_leaderboard_config env code t' ≡ get_leaderboard_config env code t
unfolding get_leaderboard_config
get_leaderboard_config_kept env code t t' same = rw same refl

-- A member with a score has a place.
index_of-lookup :
    {Score : Type 0} (m : String) (score : Score) (r : Ranking Score)
    → lookup m r ≡ some score
    → (n : ℕ) × (index_of m r ≡ some n)
index_of-lookup m score [] h = cc
index_of-lookup m score ((k, v) ∷ r) h = elim (Bool-cases (str_eq k m)) [
  | inl hit ↦ (0, rw hit refl)
  | inr miss ↦
      let (n, at) = index_of-lookup m score r (ground (arith, h, miss)) in
      (suc n, rw (miss, at) refl)
]

module _ (fl : Float64) (z : SortedSets fl.Score) (u : UuidCodec) (env : BoardEnv) where
  -- A submission that fails, for whatever reason, changes nothing.
  pub submit_score_error_unchanged :
      (code user_id : String) (score : fl.Score) (w : Boards fl.Score z.Store)
      → (submit_score fl z u env code user_id score w).0 ≢ ok tt
      → (submit_score fl z u env code user_id score w).1 ≡ w
  unfolding submit_score
  submit_score_error_unchanged code user_id score w h = elim (Option-cases (u.parse user_id)) [
    | inl bad ↦ ground (arith, bad)
    | inr (id, parsed) ↦ elim (DbResult-cases (get_leaderboard_config env code w.tables)) [
      | inl (config, found) ↦ ground (arith, parsed, found)
      | inr (inl missing) ↦ ground (arith, parsed, missing)
      | inr (inr broken) ↦ ground (arith, parsed, broken)
    ]
  ]

  -- A submission that succeeds had a valid score, a user id and a board; it adds one row to the table of
  -- scores and sets the score of the user in the sorted set.
  pub submit_score-ok :
      (code user_id : String) (score : fl.Score) (w : Boards fl.Score z.Store)
      → (submit_score fl z u env code user_id score w).0 ≡ ok tt
      → (id : ℕ) × (config : LeaderboardConfig) × (u.parse user_id ≡ some id)
        × (get_leaderboard_config env code w.tables ≡ row config)
        × (is_invalid fl z u env score ≡ false)
        × ((submit_score fl z u env code user_id score w).1 ≡ record {
          tables = record w.tables {
            scores = w.tables.scores ++ new_score env config.id id score ∷ [];
          };
          cache = z.z_add (board_key code) score user_id w.cache;
        })
  unfolding submit_score
  submit_score-ok code user_id score w h = elim (Option-cases (u.parse user_id)) [
    | inl bad ↦ ground (arith, bad)
    | inr (id, parsed) ↦ elim (DbResult-cases (get_leaderboard_config env code w.tables)) [
      | inl (config, found) ↦
          let same = get_leaderboard_config_code env code w.tables config found in
          (
            id,
            config,
            parsed,
            found,
            ground (arith, parsed, found),
            ground (arith, parsed, found, same),
          )
      | inr (inl missing) ↦ ground (arith, parsed, missing)
      | inr (inr broken) ↦ ground (arith, parsed, broken)
    ]
  ]

  -- After a submission that succeeds, `GetUserRank` gives the user that very score, whatever score they had
  -- before and whatever the board's `update_strategy` says; other users keep their scores.
  pub get_user_rank-submit_score :
      (code user_id : String) (score : fl.Score) (w : Boards fl.Score z.Store)
      → z.Up w.cache
      → (submit_score fl z u env code user_id score w).0 ≡ ok tt
      → let w' = (submit_score fl z u env code user_id score w).1 in
        ((e : RankEntry fl.Score) × ((get_user_rank fl z u env code user_id w').0 ≡ ok e)
          × (e.score ≡ score))
        × ((other : String)
            → str_eq user_id other ≡ false
            → z.z_score (board_key code) other w'.cache ≡ z.z_score (board_key code) other w.cache)
  unfolding get_user_rank
  get_user_rank-submit_score code user_id score w up done =
      let w' = (submit_score fl z u env code user_id score w).1 in
      let (id, config, parsed, found, valid, state) = submit_score-ok code user_id score w done in
      let cache : w'.cache ≡ z.z_add (board_key code) score user_id w.cache =
        ap (λ v. v.cache) state in
      let up' : z.Up w'.cache = rw cache (z.z_add-Up (board_key code) user_id score w.cache up) in
      let tables : w'.tables.configs ≡ w.tables.configs = ap (λ v. v.tables.configs) state in
      let still = get_leaderboard_config_kept env code w.tables w'.tables (sym tables) in
      let value : lookup user_id (z.ranking (board_key code) w'.cache) ≡ some score = ground (
        arith,
        ap (λ c. lookup user_id (z.ranking (board_key code) c)) cache,
        z.lookup-z_add (board_key code) user_id (board_key code) user_id score w.cache up,
        str_eq_refl (board_key code),
        str_eq_refl user_id,
      ) in
      let (n, at) = index_of-lookup user_id score (z.ranking (board_key code) w'.cache) value in
      (
        (
          record { rank = pos (n + 1); user_id = user_id; score = score },
          ground (
            arith,
            still,
            found,
            at,
            value,
            z.z_rev_rank_lem (board_key code) user_id w'.cache up',
            z.z_score_lem (board_key code) user_id w'.cache up',
          ),
          refl,
        ),
        λ other differ. ground (
          arith,
          z.z_score_lem (board_key code) other w'.cache up',
          z.z_score_lem (board_key code) other w.cache up,
          ap (λ c. lookup other (z.ranking (board_key code) c)) cache,
          z.lookup-z_add (board_key code) user_id (board_key code) other score w.cache up,
          differ,
        ),
      )
