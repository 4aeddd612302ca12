-- ===== src/Leaderboard/Pages.antt =====
-- The pages of `GetRanking` in internal/leaderboard/service.go, against the whole ranking.
use cyandie_backend.Common.{
  ℕ, zero, suc, ◌+◌, ◌-◌, ◌≤◌, ◌<◌, String, List, [], ◌∷◌, ◌≡◌, refl, sym, ap, ◌∙◌, arith, length,
  take, drop, get_elem?, none, if◌then◌else◌, ltb, Option-cases, inl, inr,
}
use mathlib.Core.Option
use cyandie_backend.Common.Int.{ℤ, pos, negsuc, sub_ℕ, int64, ◌+ℤ◌}
use cyandie_backend.Core.Errors.{ok}
use cyandie_backend.Db.Rows.{DbResult-cases, row}
use cyandie_backend.Db.Boards.{BoardEnv, LeaderboardConfig, get_leaderboard_config}
use cyandie_backend.Uuid.{UuidCodec}
use cyandie_backend.Leaderboard.External.{Float64, SortedSets, range, lookup, index_of}
use cyandie_backend.Leaderboard.{
  Boards, RankEntry, board_key, number_from, get_ranking, get_user_rank,
}
use cyandie_backend.Leaderboard.Numbers.{
  range-page, next_rank, last_index, negative_rank, negative_stop, range-negative, small_rank,
  page_numbers, numbered_at, page_entry, entry_at,
}

module _ (fl : Float64) (z : SortedSets fl.Score) (u : UuidCodec) (env : BoardEnv) where
  get_ranking-found :
      (code : String) (limit offset : ℤ) (w : Boards fl.Score z.Store) (config : LeaderboardConfig)
      → z.Up w.cache
      → get_leaderboard_config env code w.tables ≡ row config
      → get_ranking fl z u env code limit offset w ≡ (
        ok (
            number_from (offset +ℤ pos 1) (
              range offset
                (int64 (offset +ℤ limit +ℤ negsuc 0))
                (z.ranking (board_key code) w.cache))),
        w,
      )
  unfolding get_ranking
  get_ranking-found code limit offset w config up found = ground (
    arith,
    found,
    z.z_rev_range_lem (board_key code) offset (int64 (offset +ℤ limit +ℤ negsuc 0)) w.cache up,
  )

  -- The page of an offset and a limit that are not negative, as a part of the numbered ranking.
  get_ranking-take :
      (code : String) (limit offset : ℕ) (w : Boards fl.Score z.Store) (config : LeaderboardConfig)
      → z.Up w.cache
      → get_leaderboard_config env code w.tables ≡ row config
      → 0 < limit
      → offset + limit < 9223372036854775808
      → get_ranking fl z u env code (pos limit) (pos offset) w ≡ (
        ok (take limit (drop offset (number_from (pos 1) (z.ranking (board_key code) w.cache)))),
        w,
      )
  unfolding get_ranking
  get_ranking-take code zero offset w config up found some_entries fits = absurd (omega arith)
  get_ranking-take code (suc l) offset w config up found some_entries fits =
      let r = z.ranking (board_key code) w.cache in
      get_ranking-found code (pos (suc l)) (pos offset) w config up found
      ∙ ap (λ entries. (ok entries, w))
          (rw (last_index offset l fits, next_rank offset, range-page offset l r)
            (sym (page_numbers offset l r)))

  -- For an existing board, an offset that is not negative and a positive limit whose sum fits an int64,
  -- `GetRanking` answers with the entries of the sorted set from the offset on, at most as many as the limit:
  -- the i-th one has the user and the score of the place offset + i, counted from 0, and the rank
  -- offset + i + 1, and there is an i-th one just if i is below the limit and the sorted set has that place.
  pub get_ranking-page :
      (code : String) (limit offset : ℕ) (w : Boards fl.Score z.Store) (config : LeaderboardConfig)
      → z.Up w.cache
      → get_leaderboard_config env code w.tables ≡ row config
      → 0 < limit
      → offset + limit < 9223372036854775808
      → (page : List (RankEntry fl.Score)) × (get_ranking fl z u env code (pos limit) (pos offset) w
          ≡ (ok page, w))
        × ((i : ℕ)
            → get_elem? page i ≡ (
                if ltb i limit
                then Option.map
                    (entry_at (offset + i))
                    (get_elem? (z.ranking (board_key code) w.cache) (offset + i))
                else none))
  get_ranking-page code limit offset w config up found some_entries fits =
      let r = z.ranking (board_key code) w.cache in
      (
        take limit (drop offset (number_from (pos 1) r)),
        get_ranking-take code limit offset w config up found some_entries fits,
        λ i. page_entry limit offset i r fits,
      )

  -- `GetUserRank` and `GetRanking` agree: the entry that a user is given for themself is the entry of the
  -- ranking at that rank.
  pub get_ranking-get_user_rank :
      (code user_id : String) (w : Boards fl.Score z.Store) (e : RankEntry fl.Score)
      → z.Up w.cache
      → get_user_rank fl z u env code user_id w ≡ (ok e, w)
      → (n : ℕ) × (e.rank ≡ pos (suc n))
        × (e.user_id ≡ user_id)
        × (suc n < 9223372036854775808
            → get_ranking fl z u env code (pos 1) (pos n) w ≡ (ok (e ∷ []), w))
  unfolding get_user_rank
  get_ranking-get_user_rank code user_id w e up got =
      elim (DbResult-cases (get_leaderboard_config env code w.tables)) [
        | inl (config, found) ↦
            elim (Option-cases (index_of user_id (z.ranking (board_key code) w.cache))) [
              | inl absent ↦ ground (arith, found, absent, got, ranks)
              | inr (n, at) ↦
                  elim (Option-cases (lookup user_id (z.ranking (board_key code) w.cache))) [
                    | inl absent ↦ ground (arith, found, at, absent, got, ranks, scores)
                    | inr (score, there) ↦ (
                      n,
                      ground (arith, found, at, there, got, ranks, scores),
                      ground (arith, found, at, there, got, ranks, scores),
                      λ fits.
                          let place : n + 1 < 9223372036854775808 = omega arith in
                          let own : record { rank = pos (n + 1); user_id = user_id; score = score }
                              ≡ e =
                            ground (arith, found, at, there, got, ranks, scores) in
                          get_ranking-take code 1 n w config up found (omega arith) place
                          ∙ ap (λ es. (ok es, w))
                              (numbered_at n 1 user_id score (z.ranking (board_key code) w.cache) at
                                  there
                                ∙ rw (small_rank n place) (ap (λ x. x ∷ []) own)),
                    )
                  ]
            ]
        | inr (inl missing) ↦ ground (arith, missing, got)
        | inr (inr broken) ↦ ground (arith, broken, got)
      ]
    where
      ranks :
          z.z_rev_rank (board_key code) user_id w.cache
          ≡ index_of user_id (z.ranking (board_key code) w.cache)
      ranks = z.z_rev_rank_lem (board_key code) user_id w.cache up

      scores :
          z.z_score (board_key code) user_id w.cache
          ≡ lookup user_id (z.ranking (board_key code) w.cache)
      scores = z.z_score_lem (board_key code) user_id w.cache up

  -- For an offset of -(k + 1), which the handler lets through, the page is taken from the end of the
  -- ranking and numbered from -k on.
  pub get_ranking-negative :
      (code : String) (limit k : ℕ) (w : Boards fl.Score z.Store) (config : LeaderboardConfig)
      → z.Up w.cache
      → get_leaderboard_config env code w.tables ≡ row config
      → let r = z.ranking (board_key code) w.cache in
        0 < limit
        → limit ≤ k + 1
        → k < length r
        → k < 9223372036854775807
        → get_ranking fl z u env code (pos limit) (negsuc k) w
          ≡ (ok (number_from (sub_ℕ 0 k) (take limit (drop (length r - suc k) r))), w)
  get_ranking-negative code limit k w config up found some_entries few enough fits =
      let r = z.ranking (board_key code) w.cache in
      get_ranking-found code (pos limit) (negsuc k) w config up found
      ∙ ap (λ es. (ok es, w))
          (rw
            (
              negative_rank k,
              negative_stop limit k some_entries few fits,
              range-negative limit k r some_entries few enough,
            )
            refl)
