-- ===== src/Server.antt =====
-- server/server.cpp and the callbacks of server/session.cpp: the events that the one thread of the
-- io_context runs, one after the other. Each comes with what the outside world decides during it.
pub mod Composed
pub mod Sending
pub mod Induction
pub mod Faults
pub mod Reach
pub mod Privacy
pub mod Invariant
pub mod Boxes
pub mod Mailbox
pub mod Answers
use asynchronous_messenger.Base.{
  ℕ, ◌+◌, String, Option, none, some, List, [], ◌∷◌, ◌==◌, nat_eq, if◌then◌else◌,
}
use asynchronous_messenger.Json.{JsonLib}
use asynchronous_messenger.Env.{Env}
use asynchronous_messenger.Database.{Db, DbFile, initialize}
use asynchronous_messenger.UserManager.{no_sessions}
use asynchronous_messenger.Session.{Session, World, new_session, set_session, close}
use asynchronous_messenger.JsonParser.{parse_message}
use asynchronous_messenger.Wire.{receive}

-- The callbacks: a connection was accepted, bytes were read, a read failed, a write failed.
pub data Event : Type 0 where
  accepted : Event
  received : ℕ → List ℕ → Event
  read_failed write_failed : ℕ → Event

-- Server::Server; `none` if the database cannot be initialized
unfoldable pub start_server : {Json : Type 0} → Env → DbFile → Option (World Json)
start_server env file = elim (initialize env file) [
  | none ↦ none
  | some db ↦
      some
        (record { db = db; manager = no_sessions; sessions = λ i. new_session; next_session = 0 })
]

module _ {Json : Type 0} (lib : JsonLib Json) (hasher : String → ℕ) where
  -- The callback of Session::do_read. The buffer is read and written by this loop alone, so it is
  -- taken from the session before the loop and put back behind it.
  unfoldable pub do_read : Env → ℕ → List ℕ → World Json → World Json
  do_read env sid chunk w =
      elim (receive (λ message. parse_message lib hasher env message sid)
        (w.sessions sid).message_buffer chunk w) [
          | none ↦ w
          | some (rest, w') ↦
              set_session sid (record (w'.sessions sid) { message_buffer = rest }) w'
        ]

  unfoldable pub step : Env → Event → World Json → World Json
  unfolding do_read
  step env accepted w =
      let w' = set_session w.next_session new_session w in
      record w' { next_session = w.next_session + 1 }
  step env (received sid chunk) w = do_read env sid chunk w
  step env (read_failed sid) w = close sid w
  step env (write_failed sid) w = close sid w

  unfoldable pub run : List (Env × Event) → World Json → World Json
  run [] w = w
  run ((env, e) ∷ rest) w = run rest (step env e w)
