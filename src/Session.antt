-- ===== src/Session.antt =====
-- server/session.cpp and server/include/session.h. Sessions are objects that the UserManager and the
-- event loop share, so they stand in a store, by number; the state of the whole server is a `World`.
-- Of the socket the model keeps what was passed to async_write and the bytes on the open socket.
pub mod Store
use asynchronous_messenger.Base.{
  ℕ, ◌-◌, ◌+◌, ◌^◌, String, Bool, true, false, Option, none, some, List, [], ◌∷◌, ◌++◌, ◌==◌,
  nat_eq, if◌then◌else◌,
}
use asynchronous_messenger.Json.{JsonLib}
use asynchronous_messenger.Database.{Db}
use asynchronous_messenger.UserManager.{UserManager, remove_session}
use asynchronous_messenger.Wire.{newline}

pub record Session (Json : Type 0) : Type 0 where
  pub authenticated : Bool
  -- an `int`, as a bit pattern
  pub user_id : ℕ
  pub username : String
  pub message_buffer : List ℕ
  pub closing : Bool
  -- the messages passed to async_write, in order
  pub sent : List Json
  -- the bytes written while the socket was open
  pub wire : List ℕ

pub record World (Json : Type 0) : Type 0 where
  pub db : Db
  pub manager : UserManager
  pub sessions : ℕ → Session Json
  pub next_session : ℕ

-- Session::Session; the id is -1
abbrev pub new_session : {Json : Type 0} → Session Json
new_session = record {
  authenticated = false;
  user_id = 2 ^ 32 - 1;
  username = "";
  message_buffer = [];
  closing = false;
  sent = [];
  wire = [];
}

module _ {Json : Type 0} where
  unfoldable pub set_session : ℕ → Session Json → World Json → World Json
  set_session sid s w = record w { sessions = λ i. if sid == i then s else w.sessions i }

  -- Session::send; a message that cannot be serialized is dropped
  unfoldable pub send : JsonLib Json → ℕ → Json → World Json → World Json
  unfolding set_session
  send lib sid message w = elim (lib.dump message) [
    | none ↦ w
    | some text ↦
        let s = w.sessions sid in
        set_session sid
          (record s {
            sent = s.sent ++ message ∷ [];
            wire = if s.closing then s.wire else s.wire ++ text ++ newline ∷ [];
          })
          w
  ]

  -- Session::setAuthenticated
  unfoldable pub set_authenticated : ℕ → ℕ → String → World Json → World Json
  unfolding set_session
  set_authenticated sid user_id username w =
      set_session sid
        (record (w.sessions sid) { authenticated = true; user_id = user_id; username = username }) w

  -- Session::close, with JsonParser::removeSessionFromManager
  unfoldable pub close : ℕ → World Json → World Json
  unfolding set_session
  close sid w =
      let s = w.sessions sid in
      let w' = set_session sid (record s { closing = true }) w in
      if s.closing
      then w
      else (if s.authenticated
          then record w' { manager = remove_session s.user_id w'.manager }
          else w')
