-- ===== src/Tests/Logins.antt =====
-- Logins, and requests of sessions that are not logged in (server/json_parser.cpp).
use asynchronous_messenger.Base.{
  String, true, false, ◌≡◌, refl, ◌≢◌, some, [], ◌∷◌, map, Perm, c_str, to_string, decimal, append,
  some_inj, ap, ◌∙◌, ◌==◌, string_eq,
}
use asynchronous_messenger.Json.Sample.{Sample, member}
use asynchronous_messenger.Database.{get_user, get_offline_messages}
use asynchronous_messenger.Database.Messages.{waiting}
use asynchronous_messenger.UserManager.{
  authenticate_user, hash_password, verify_password, get_session,
}
use asynchronous_messenger.Router.{stored_message}
use asynchronous_messenger.JsonParser.{
  response, login_with, parse_message, is_session_authenticated,
}
use asynchronous_messenger.JsonParser.Login.{login_delivers}
use asynchronous_messenger.JsonParser.Guards.{OnlyAnswered, not_logged_in}
use asynchronous_messenger.Tests.Data.{
  calm, calm-IsHealthy, calm-Orders, hasher, lib, lib-Serializes, fresh, two_users, texts_differ,
}

login_delivers_example :
    let w' = login_with lib hasher calm "ann" "one" 1 fresh in
    ((w'.sessions 1).sent
      ≡ response lib calm "login" true "Login successful"
        ∷ map (stored_message lib calm two_users) (get_offline_messages calm 1 two_users))
    × Perm (get_offline_messages calm 1 two_users) (waiting 1 two_users)
    × (waiting 1 w'.db ≡ [])
    × (get_session 1 w'.manager ≡ some 1)
unfolding authenticate_user hash_password get_user verify_password c_str to_string decimal append
login_delivers_example =
    login_delivers lib hasher calm "ann" "one" 1 1 fresh lib-Serializes calm-IsHealthy calm-Orders
      refl

message_only :
    (type : String) (m : Sample)
    → ("message" == type) ≡ false
    → lib.parse (123 ∷ []) ≡ some m
    → lib.as_string m "type" ≢ some type
unfolding member
message_only type m ne e h =
    texts_differ "message" type ne
      (some_inj (ap (λ (x : Sample). lib.as_string x "type") (some_inj e) ∙ h))

not_logged_in_example : OnlyAnswered 1 fresh (parse_message lib hasher calm (123 ∷ []) 1 fresh)
unfolding is_session_authenticated
not_logged_in_example =
    not_logged_in lib hasher calm (123 ∷ []) 1 fresh refl (λ m. message_only "register" m refl)
      (λ m. message_only "login" m refl)
