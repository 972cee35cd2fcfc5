-- ===== src/UserManager.antt =====
-- server/user_manager.cpp and server/include/user_manager.h: accounts in the database, and the two
-- maps that say which session a user is logged in from. A `std::shared_ptr<Session>` is the number
-- of the session; `std::hash<std::string>` is an argument, since the standard does not fix it.
pub mod Accounts
pub mod Sessions
use asynchronous_messenger.Base.{
  ℕ, ◌%◌, ◌^◌, String, Bool, true, false, Option, none, some, List, [], ◌∷◌, ◌==◌, nat_eq,
  string_eq, if◌then◌else◌, to_string, append,
}
use asynchronous_messenger.Base.Map.{find, insert, erase}
use asynchronous_messenger.Env.{Env}
use asynchronous_messenger.Database.{Db, User, add_user, get_user}

pub record UserManager : Type 0 where
  pub active_sessions : List (ℕ × ℕ)
  pub user_id_to_username : List (ℕ × String)

-- UserManager::UserManager
abbrev pub no_sessions : UserManager
no_sessions = record { active_sessions = []; user_id_to_username = [] }

module _ (hasher : String → ℕ) where
  unfoldable pub hash_password : String → String
  hash_password password = to_string (hasher (append password "salt_key_2024") % 2 ^ 64)

  unfoldable pub verify_password : String → String → Bool
  verify_password password hash = hash_password password == hash

  unfoldable pub register_user : Env → String → String → String → Db → Bool × Db
  register_user env username email password db = elim (get_user env username db) [
    | some user ↦ (false, db)
    | none ↦ add_user env username email (hash_password password) db
  ]

  -- `some` is `true` with the value that the reference parameter gets.
  unfoldable pub authenticate_user : Env → String → String → Db → Option ℕ
  unfolding verify_password
  authenticate_user env username password db = elim (get_user env username db) [
    | none ↦ none
    | some user ↦ if verify_password password user.password_hash then some user.id else none
  ]

unfoldable pub remove_session : ℕ → UserManager → UserManager
remove_session user_id m = elim (find user_id m.active_sessions) [
  | none ↦ m
  | some session ↦ record m {
    active_sessions = erase user_id m.active_sessions;
    user_id_to_username = erase user_id m.user_id_to_username;
  }
]

unfoldable pub add_session : ℕ → String → ℕ → UserManager → UserManager
add_session user_id username session m =
    let m' = remove_session user_id m in
    record m' {
      active_sessions = insert user_id session m'.active_sessions;
      user_id_to_username = insert user_id username m'.user_id_to_username;
    }

abbrev pub is_found : Option ℕ → Bool
is_found none = false
is_found (some s) = true

unfoldable pub is_session_active : ℕ → UserManager → Bool
is_session_active user_id m = is_found (find user_id m.active_sessions)

unfoldable pub get_session : ℕ → UserManager → Option ℕ
get_session user_id m = find user_id m.active_sessions

-- The loop over the map: the first user with the name.
unfoldable pub find_username : String → List (ℕ × String) → Option ℕ
find_username username [] = none
find_username username ((i, name) ∷ m) =
    if name == username then some i else find_username username m

unfoldable pub get_session_by_username : String → UserManager → Option ℕ
unfolding find_username get_session
get_session_by_username username m = elim (find_username username m.user_id_to_username) [
  | none ↦ none
  | some user_id ↦ get_session user_id m
]
