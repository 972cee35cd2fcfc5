-- ===== src/JsonParser.antt =====
-- server/json_parser.cpp and server/include/json_parser.h. `try … catch …` is the handler's block:
-- a conversion of a member that has another type leaves it, before anything was changed.
pub mod Login
pub mod Guards
use asynchronous_messenger.Base.{
  ℕ, String, Bool, true, false, not, ◌&&◌, ◌||◌, Option, none, some, List, ◌==◌, string_eq,
  if◌then◌else◌, append, ◌>>=◌, try◌catch◌,
}
use asynchronous_messenger.Json.{JsonLib, text, flag, number}
use asynchronous_messenger.Env.{Env}
use asynchronous_messenger.UserManager.{
  register_user, authenticate_user, add_session, is_session_active,
}
use asynchronous_messenger.Session.{World, send, set_authenticated}
use asynchronous_messenger.Router.{route_message, send_typing_status, send_stored_messages}

-- setAuthenticated and addSession
unfoldable pub bind_session : {Json : Type 0} → ℕ → ℕ → String → World Json → World Json
bind_session sid user_id username w =
    let w' = set_authenticated sid user_id username w in
    record w' { manager = add_session user_id username sid w'.manager }

module _ {Json : Type 0} (lib : JsonLib Json) (env : Env) where
  -- The object that JsonParser::sendResponse builds.
  unfoldable pub response : String → Bool → String → Json
  response type success message =
      let typed = lib.put lib.null "type" (text (append type "_response")) in
      let judged = lib.put (lib.put typed "success" (flag success)) "message" (text message) in
      lib.put judged "timestamp" (number env.time)

  unfoldable pub send_response : ℕ → String → Bool → String → World Json → World Json
  send_response sid type success message w = send lib sid (response type success message) w

  unfoldable pub is_session_authenticated : ℕ → World Json → Bool
  is_session_authenticated sid w =
      (w.sessions sid).authenticated && is_session_active (w.sessions sid).user_id w.manager

  unfoldable pub handle_message : Json → ℕ → World Json → World Json
  unfolding send_response is_session_authenticated
  handle_message message sid w =
      if not (is_session_authenticated sid w)
      then send_response sid "message" false "Not authenticated" w
      else if not (lib.contains message "to") || not (lib.contains message "content")
      then send_response sid "message" false "Missing recipient or content" w
      else send_response sid "message" true "Message sent"
          (route_message lib env message (w.sessions sid).user_id w)

  unfoldable pub handle_typing : Json → ℕ → World Json → World Json
  unfolding is_session_authenticated
  handle_typing message sid w =
      if not (is_session_authenticated sid w)
      then w
      else if not (lib.contains message "to") || not (lib.contains message "is_typing")
      then w
      else try (do
        to_username ← lib.as_string message "to"
        is_typing ← lib.as_bool message "is_typing"
        some (send_typing_status lib env (w.sessions sid).username to_username is_typing w))
      catch w

module _ {Json : Type 0} (lib : JsonLib Json) (hasher : String → ℕ) (env : Env) where
  -- The branches of handleRegister and handleLogin behind the conversions.
  unfoldable pub register_with : String → String → String → ℕ → World Json → World Json
  unfolding send_response
  register_with username email password sid w =
      let r = register_user hasher env username email password w.db in
      let w' = record w { db = r.1 } in
      if r.0
      then send_response lib env sid "register" true "Registration successful" w'
      else send_response lib env sid "register" false "Registration failed - user may already exist"
          w'

  unfoldable pub handle_register : Json → ℕ → World Json → World Json
  unfolding register_with send_response
  handle_register message sid w =
      if not (lib.contains message "username")
        || not (lib.contains message "email")
        || not (lib.contains message "password")
      then send_response lib env sid "register" false "Missing required fields" w
      else try (do
        username ← lib.as_string message "username"
        email ← lib.as_string message "email"
        password ← lib.as_string message "password"
        some (register_with username email password sid w))
      catch send_response lib env sid "register" false "Registration error" w

  unfoldable pub login_with : String → String → ℕ → World Json → World Json
  unfolding send_response bind_session
  login_with username password sid w = elim (authenticate_user hasher env username password w.db) [
    | some user_id ↦ send_stored_messages lib env user_id sid (
        send_response lib env sid "login" true "Login successful"
          (bind_session sid user_id username w))
    | none ↦ send_response lib env sid "login" false "Invalid username or password" w
  ]

  unfoldable pub handle_login : Json → ℕ → World Json → World Json
  unfolding login_with send_response
  handle_login message sid w =
      if not (lib.contains message "username") || not (lib.contains message "password")
      then send_response lib env sid "login" false "Missing username or password" w
      else try (do
        username ← lib.as_string message "username"
        password ← lib.as_string message "password"
        some (login_with username password sid w))
      catch send_response lib env sid "login" false "Login error" w

  unfoldable pub dispatch : String → Json → ℕ → World Json → World Json
  unfolding send_response
  dispatch type message sid w =
      if type == "register"
      then handle_register message sid w
      else if type == "login"
      then handle_login message sid w
      else if type == "message"
      then handle_message lib env message sid w
      else if type == "typing"
      then handle_typing lib env message sid w
      else send_response lib env sid "error" false (append "Unknown message type: " type) w

  unfoldable pub handle_request : Json → ℕ → World Json → World Json
  unfolding dispatch send_response
  handle_request message sid w =
      if not (lib.contains message "type")
      then send_response lib env sid "error" false "Missing message type" w
      else try (do type ← lib.as_string message "type"; some (dispatch type message sid w))
      catch send_response lib env sid "error" false "Error processing request" w

  unfoldable pub parse_message : List ℕ → ℕ → World Json → World Json
  unfolding handle_request send_response
  parse_message raw_message sid w = elim (lib.parse raw_message) [
    | none ↦ send_response lib env sid "error" false "Invalid JSON format" w
    | some message ↦ elim (lib.dump message) [
      | none ↦ send_response lib env sid "error" false "Internal server error" w
      | some logged ↦ handle_request message sid w
    ]
  ]
