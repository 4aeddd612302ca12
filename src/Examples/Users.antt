-- ===== src/Examples/Users.antt =====
-- A profile of internal/users.
use cyandie_backend.Common.{false, none, some, [], ◌∷◌, ◌≡◌, refl}
use cyandie_backend.Core.Errors.{ok}
use cyandie_backend.Db.Users.{Accounts, AccountEnv, get_user_by_id}
use cyandie_backend.Db.Users
use cyandie_backend.Uuid.Unary.{unary_codec}
use cyandie_backend.Users.{User, UpdateProfileRequest, get_user, update_profile}
use cyandie_backend.Users.Profiles.{get_user-update_profile}

abbrev row_of_eve : Users.User
row_of_eve = record {
  id = 0;
  username = "eve";
  email = none;
  display_name = none;
  avatar_url = some "a.png";
  status = "active";
}

abbrev accounts : Accounts
accounts = record { users = row_of_eve ∷ []; credentials = [] }

abbrev account_env : AccountEnv
account_env = record { fails = λ q. false; new_id = 5 }

abbrev rename : UpdateProfileRequest
rename = record { display_name = some "Eve"; avatar_url = none }

abbrev shown : User
shown = record {
  id = "i";
  username = "eve";
  email = "";
  display_name = "";
  avatar_url = "a.png";
  status = "active";
}

before : (get_user unary_codec account_env "i" accounts).0 ≡ ok shown
unfolding get_user get_user_by_id
before = refl

done : (update_profile unary_codec account_env "i" rename accounts).0 ≡ ok tt
unfolding update_profile Users.update_user_profile
done = refl

get_user-update_profile_example :
    (get_user unary_codec account_env "i"
      (update_profile unary_codec account_env "i" rename accounts).1).0
    ≡ ok (record shown { display_name = "Eve" })
get_user-update_profile_example =
    get_user-update_profile unary_codec account_env account_env "i" rename accounts shown before
      done
