-- ===== src/Ui/Chain.antt =====
-- A line from the keys of one user to the screen of the other: client/client_ui.cpp,
-- client/client_state_machine.cpp, server/json_parser.cpp, server/router.cpp and
-- client/message_receiver.cpp.
use asynchronous_messenger.Base.{ℕ, string_eq, ◌≡◌}
use asynchronous_messenger.Env.{Env}
use asynchronous_messenger.UserManager.{UserManager}
use asynchronous_messenger.Session.{World}
use asynchronous_messenger.Ui.{Ui}

-- What typing status leaves alone, of what a session needs to be heard.
record SameFor {Json : Type 0} (sid : ℕ) (w w' : World Json) : Type 0 where
  db : w'.db ≡ w.db
  manager : w'.manager ≡ w.manager
  authenticated : (w'.sessions sid).authenticated ≡ (w.sessions sid).authenticated
  user_id : (w'.sessions sid).user_id ≡ (w.sessions sid).user_id
