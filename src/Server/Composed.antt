-- ===== src/Server/Composed.antt =====
-- The messages that server/json_parser.cpp and server/router.cpp put together for Session::send.
use asynchronous_messenger.Base.{ℕ, String, Bool, true, ◌≡◌, some}
use asynchronous_messenger.Json.{JsonLib}
use asynchronous_messenger.Env.{Env}
use asynchronous_messenger.Database.{Db, Message}
use asynchronous_messenger.Router.{delivery, typing_message, stored_message}
use asynchronous_messenger.JsonParser.{response}

-- The types that JsonParser::sendResponse is called with.
pub data Subject : String → Type 0 where
  registration : Subject "register"
  login : Subject "login"
  chat : Subject "message"
  problem : Subject "error"

-- An answer, the copy of a message that a client has sent, typing status, or a stored message.
pub data Composed {Json : Type 0} (lib : JsonLib Json) : Json → Type 0 where
  answered :
      (env : Env) {type : String} (ok : Bool) (m : String)
      → Subject type
      → Composed lib (response lib env type ok m)
  relayed :
      (env : Env) (m : Json) (sender_id : ℕ) (db : Db) (content : String)
      → lib.contains m "type" ≡ true
      → lib.as_string m "type" ≡ some "message"
      → lib.as_string m "content" ≡ some content
      → Composed lib (delivery lib env m sender_id db)
  told :
      (env : Env) (from : String) (is_typing : Bool)
      → Composed lib (typing_message lib env from is_typing)
  kept : (env : Env) (db : Db) (m : Message) → Composed lib (stored_message lib env db m)
