-- ===== src/Client/Machine.antt =====
-- client/client_state_machine.cpp: the actions of the user, each with the states that it is allowed
-- in, and the events of a client.
use asynchronous_messenger.Base.{ℕ, String, Bool, true, false, not, List, if◌then◌else◌}
use asynchronous_messenger.Json.{JsonLib, text, flag}
use asynchronous_messenger.Client.{
  ClientState, Client, Net, transition_to_state, awaiting_login, menu, chatting,
}
use asynchronous_messenger.Client.Connection.{
  connect, disconnect, start_receiving, send_request, read_some, read_error,
}
use asynchronous_messenger.Client.Receiver.{start_listening, stop_listening}

-- current_state_ == …
abbrev pub is_awaiting_login : ClientState → Bool
is_awaiting_login awaiting_login = true
is_awaiting_login _ = false

abbrev pub is_menu : ClientState → Bool
is_menu menu = true
is_menu _ = false

abbrev pub is_chatting : ClientState → Bool
is_chatting chatting = true
is_chatting _ = false

-- The requests, as json objects.
module _ {Json : Type 0} (lib : JsonLib Json) where
  unfoldable pub register_request : String → String → String → Json
  register_request username email password =
      let named = lib.put (lib.put lib.null "type" (text "register")) "username" (text username) in
      lib.put (lib.put named "email" (text email)) "password" (text password)

  unfoldable pub login_request : String → String → Json
  login_request username password =
      lib.put (lib.put (lib.put lib.null "type" (text "login")) "username" (text username))
        "password" (text password)

  unfoldable pub chat_request : String → String → Json
  chat_request target content =
      lib.put (lib.put (lib.put lib.null "type" (text "message")) "to" (text target)) "content"
        (text content)

  unfoldable pub typing_request : String → Bool → Json
  typing_request target is_typing =
      lib.put (lib.put (lib.put lib.null "type" (text "typing")) "to" (text target)) "is_typing"
        (flag is_typing)

module _ {Json : Type 0} where
  unfoldable pub try_connect : Net → Client Json → Bool × Client Json
  unfolding connect start_receiving start_listening
  try_connect net c =
      let r = connect net (transition_to_state ClientState.try_connect c) in
      if r.0
      then (
        true,
        transition_to_state awaiting_login
            (start_listening (start_receiving (transition_to_state ClientState.connected r.1))),
      )
      else (false, transition_to_state ClientState.disconnected r.1)

  unfoldable pub start_chat : String → Client Json → Client Json
  start_chat target_username c =
      if not (is_menu c.machine.current_state)
      then c
      else transition_to_state chatting
          (record c { machine = record c.machine { chat_target = target_username } })

  unfoldable pub exit_chat : Client Json → Client Json
  exit_chat c =
      if is_chatting c.machine.current_state
      then transition_to_state menu (record c { machine = record c.machine { chat_target = "" } })
      else c

  abbrev pub forget_user : Client Json → Client Json
  forget_user c = record c {
    machine = record c.machine { current_username = ""; chat_target = "" };
  }

  unfoldable pub logout : Client Json → Client Json
  unfolding stop_listening disconnect
  logout c =
      transition_to_state ClientState.disconnected (disconnect (stop_listening (forget_user c)))

  unfoldable pub handle_connection_lost : Client Json → Client Json
  handle_connection_lost c = transition_to_state ClientState.disconnected (forget_user c)

module _ {Json : Type 0} (lib : JsonLib Json) (net : Net) where
  unfoldable pub request_registration : String → String → String → Client Json → Bool × Client Json
  unfolding send_request
  request_registration username email password c =
      if not (is_awaiting_login c.machine.current_state)
      then (false, c)
      else (true, send_request lib net (register_request lib username email password) c)

  unfoldable pub login_user : String → String → Client Json → Bool × Client Json
  unfolding send_request
  login_user username password c =
      let c' = send_request lib net (login_request lib username password) c in
      if not (is_awaiting_login c.machine.current_state)
      then (false, c)
      else (true, record c' { machine = record c'.machine { current_username = username } })

  unfoldable pub send_message : String → Client Json → Client Json
  unfolding send_request
  send_message content c =
      if not (is_chatting c.machine.current_state)
      then c
      else send_request lib net (chat_request lib c.machine.chat_target content) c

  unfoldable pub send_typing : Bool → Client Json → Client Json
  unfolding send_request
  send_typing is_typing c =
      if not (is_chatting c.machine.current_state)
      then c
      else send_request lib net (typing_request lib c.machine.chat_target is_typing) c

-- What the user does, and what happens to the connection.
pub data Action : Type 0 where
  connecting : Action
  registering : String → String → String → Action
  logging_in : String → String → Action
  starting_chat : String → Action
  writing : String → Action
  typing_status : Bool → Action
  exiting_chat logging_out : Action
  read : List ℕ → Action
  lost : Action

module _ {Json : Type 0} (lib : JsonLib Json) where
  unfoldable pub act : Net → Action → Client Json → Client Json
  act net connecting c = (try_connect net c).1
  act net (registering u e p) c = (request_registration lib net u e p c).1
  act net (logging_in u p) c = (login_user lib net u p c).1
  act net (starting_chat target) c = start_chat target c
  act net (writing content) c = send_message lib net content c
  act net (typing_status b) c = send_typing lib net b c
  act net exiting_chat c = exit_chat c
  act net logging_out c = logout c
  act net (read chunk) c = read_some lib net chunk c
  act net lost c = read_error lib net c
