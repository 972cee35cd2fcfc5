-- ===== src/Tests/Accounts.antt =====
-- Accounts: the users table, registration and login (server/database.cpp,
-- server/user_manager.cpp).
use asynchronous_messenger.Base.{◌≡◌, refl, some, none, c_str, to_string, decimal, append}
use asynchronous_messenger.Database.{add_user, get_user}
use asynchronous_messenger.UserManager.{hash_password, register_user, authenticate_user}
use asynchronous_messenger.UserManager.Accounts.{login_after_register}
use asynchronous_messenger.Tests.Data.{calm, calm-IsHealthy, hasher, two_users, texts_differ}

login_after_register_example :
    (authenticate_user hasher calm "eve" "one"
        (register_user hasher calm "eve" "e@x" "one" two_users).1
      ≡ some 3)
    × (authenticate_user hasher calm "eve" "two"
          (register_user hasher calm "eve" "e@x" "one" two_users).1
        ≡ none)
    × (authenticate_user hasher calm "bob" "two"
          (register_user hasher calm "eve" "e@x" "one" two_users).1
        ≡ authenticate_user hasher calm "bob" "two" two_users)
unfolding register_user get_user add_user hash_password c_str to_string decimal append
login_after_register_example =
    login_after_register hasher calm calm "eve" "e@x" "one" "bob" "two" two_users calm-IsHealthy
      refl (texts_differ "12" "11" refl) (texts_differ "eve" "bob" refl)
