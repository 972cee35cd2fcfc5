-- ===== src/Client/Receiver.antt =====
-- client/message_receiver.cpp. Each handler may throw: `none` is the exception, which
-- handleIncomingMessage catches; no handler throws after it has changed something.
use asynchronous_messenger.Base.{
  ◌-◌, String, Bool, true, false, not, ◌&&◌, Option, some, ◌==◌, string_eq, ltb, if◌then◌else◌,
  text_length, text_drop, ◌>>=◌, try◌catch◌,
}
use asynchronous_messenger.Json.{JsonLib, value_bool, value_string, value_time}
use asynchronous_messenger.Client.{
  awaiting_login, registered, logged_in, menu, chat, typing, failure, Client, Net,
  transition_to_state, notify,
}

-- type.length() > 9 && type.substr(type.length() - 9) == "_response"; counted in characters, which
-- comes to the same as in bytes, since the suffix is ASCII
unfoldable pub is_response : String → Bool
is_response type = ltb 9 (text_length type) && text_drop (text_length type - 9) type == "_response"

module _ {Json : Type 0} where
  -- MessageReceiver::startListening
  unfoldable pub start_listening : Client Json → Client Json
  start_listening c = if c.listening then c else record c {
    listening = true;
    connection = record c.connection { message_callback = true; error_callback = true };
  }

  -- MessageReceiver::stopListening
  unfoldable pub stop_listening : Client Json → Client Json
  stop_listening c = if not c.listening then c else record c {
    listening = false;
    connection = record c.connection { message_callback = false; error_callback = false };
  }

  -- The lambda that startListening gives to setErrorCallback.
  unfoldable pub on_error : String → Client Json → Client Json
  on_error error c = record (notify (failure error) c) { listening = false }

  -- The branch of login_response that succeeds, and that of register_response.
  unfoldable pub on_login : Client Json → Client Json
  on_login c = transition_to_state menu (transition_to_state logged_in c)

  unfoldable pub on_register : Client Json → Client Json
  on_register c = transition_to_state awaiting_login (transition_to_state registered c)

module _ {Json : Type 0} (lib : JsonLib Json) (net : Net) where
  unfoldable pub handle_server_response : Json → Client Json → Option (Client Json)
  unfolding on_login on_register
  handle_server_response response c = do
    type ← lib.as_string response "type"
    success ← value_bool lib response "success" false
    message ← value_string lib response "message" ""
    some (
        if type == "login_response"
        then (if success then on_login c else c)
        else if type == "register_response"
        then (if success then on_register c else c)
        else c)

  unfoldable pub handle_chat_message : Json → Client Json → Option (Client Json)
  handle_chat_message message c =
      if lib.contains message "from" && lib.contains message "content"
      then (do
        from ← lib.as_string message "from"
        content ← lib.as_string message "content"
        timestamp ← value_time lib message "timestamp" net.time
        is_stored ← value_bool lib message "stored" false
        some (notify (chat from content timestamp) c))
      else some c

  unfoldable pub handle_typing_status : Json → Client Json → Option (Client Json)
  handle_typing_status message c =
      if lib.contains message "from" && lib.contains message "is_typing"
      then (do
        from ← lib.as_string message "from"
        is_typing ← lib.as_bool message "is_typing"
        some (notify (typing from is_typing) c))
      else some c

  unfoldable pub handle_server_error : Json → Client Json → Option (Client Json)
  handle_server_error error c = do
    message ← value_string lib error "message" "Unknown error"
    some (notify (failure message) c)

  unfoldable pub handle_typed : String → Json → Client Json → Option (Client Json)
  handle_typed type message c =
      if is_response type
      then handle_server_response message c
      else if type == "message"
      then handle_chat_message message c
      else if type == "typing"
      then handle_typing_status message c
      else if type == "error"
      then handle_server_error message c
      else some c

  unfoldable pub handle_incoming_message : Json → Client Json → Client Json
  unfolding handle_typed
  handle_incoming_message message c =
      if not (lib.contains message "type")
      then c
      else try (do type ← lib.as_string message "type"; handle_typed type message c)
      catch c
