-- ===== src/Users/Handlers.antt =====
-- internal/users/handler.go: the handlers of `Handler`. A body that does not decode is none.
use cyandie_backend.Common.{zero, suc, String, Option, List, if◌then◌else◌, ltb}
use cyandie_backend.Common.Int.{ℤ, pos, negsuc}
use cyandie_backend.Core.Http.{Handler, respond_plain, respond_ok_plain, with_body, finish}
use cyandie_backend.Db.Users.{Accounts, AccountEnv, Collation}
use cyandie_backend.Uuid.{UuidCodec}
use cyandie_backend.Users.{User, UpdateProfileRequest}
use cyandie_backend.Users

-- The limit, given what `limit, _ := strconv.Atoi(text)` leaves in it.
abbrev pub limit_of : ℤ → ℤ
limit_of (pos zero) = pos 20
limit_of (pos (suc n)) = if ltb 100 (suc n) then pos 20 else pos (suc n)
limit_of (negsuc n) = pos 20

module _ (u : UuidCodec) (env : AccountEnv) where
  -- `getMe`, with the user of the context, and `getUser`, with the ID of the path
  unfoldable pub get_user : String → Handler Accounts User
  get_user id = finish (respond_plain 200) (Users.get_user u env id)

  -- `updateMe`
  unfoldable pub update_me : String → Option UpdateProfileRequest → Handler Accounts String
  update_me user_id body =
      with_body body λ req. finish respond_ok_plain (Users.update_profile u env user_id req)

  -- `searchUsers`, given the two numbers that `strconv.Atoi` leaves
  unfoldable pub search_users : Collation → String → ℤ → ℤ → Handler Accounts (List User)
  search_users order query limit offset =
      finish (respond_plain 200)
        (Users.search_users u env order query (record { limit = limit_of limit; offset = offset }))
