-- ===== src/Client/Protocol.antt =====
-- The requests of client/client_state_machine.cpp in the handlers of server/json_parser.cpp.
use asynchronous_messenger.Base.{ℕ, String, Bool, true, ◌≡◌, refl, List, [], ◌∷◌, string_eq}
use asynchronous_messenger.Json.{JsonLib, JsonLaws, Value, text, flag}
use asynchronous_messenger.Json.Objects.{has, text_at, flag_at}
use asynchronous_messenger.Env.{Env}
use asynchronous_messenger.Session.{World}
use asynchronous_messenger.Router.{deliver_message, route_message, send_typing_status}
use asynchronous_messenger.JsonParser.{
  is_session_authenticated, handle_request, dispatch, handle_register, handle_login, handle_message,
  handle_typing, register_with, login_with, send_response,
}
use asynchronous_messenger.Client.Machine.{
  register_request, login_request, chat_request, typing_request,
}

module _ {Json : Type 0} (lib : JsonLib Json) (laws : JsonLaws lib) where
  module _ (hasher : String → ℕ) (env : Env) where
    login_understood :
        (username password : String) (sid : ℕ) (w : World Json)
        → handle_request lib hasher env (login_request lib username password) sid w
          ≡ login_with lib hasher env username password sid w
    unfolding handle_request dispatch handle_login login_request
    login_understood u p sid w =
        let fs : List (String × Value) =
          ("password", text p) ∷ ("username", text u) ∷ ("type", text "login") ∷ [] in
        rw
          (
            has lib laws fs "type",
            text_at lib laws fs "type",
            has lib laws fs "username",
            has lib laws fs "password",
            text_at lib laws fs "username",
            text_at lib laws fs "password",
          )
          refl

    register_understood :
        (username email password : String) (sid : ℕ) (w : World Json)
        → handle_request lib hasher env (register_request lib username email password) sid w
          ≡ register_with lib hasher env username email password sid w
    unfolding handle_request dispatch handle_register register_request
    register_understood u e p sid w =
        let fs : List (String × Value) =
          ("password", text p)
          ∷ ("email", text e)
          ∷ ("username", text u)
          ∷ ("type", text "register")
          ∷ [] in
        rw
          (
            has lib laws fs "type",
            text_at lib laws fs "type",
            has lib laws fs "username",
            has lib laws fs "email",
            has lib laws fs "password",
            text_at lib laws fs "username",
            text_at lib laws fs "email",
            text_at lib laws fs "password",
          )
          refl

    chat_understood :
        (target content : String) (sid : ℕ) (w : World Json)
        → is_session_authenticated lib env sid w ≡ true
        → handle_request lib hasher env (chat_request lib target content) sid w
          ≡ send_response lib env sid "message" true "Message sent" (
              deliver_message lib env
                (chat_request lib target content)
                (w.sessions sid).user_id
                target
                w)
    unfolding handle_request dispatch handle_message chat_request route_message
    chat_understood target content sid w auth =
        let fs : List (String × Value) =
          ("content", text content) ∷ ("to", text target) ∷ ("type", text "message") ∷ [] in
        rw
          (
            has lib laws fs "type",
            text_at lib laws fs "type",
            auth,
            has lib laws fs "to",
            has lib laws fs "content",
            text_at lib laws fs "to",
          )
          refl

    typing_understood :
        (target : String) (is_typing : Bool) (sid : ℕ) (w : World Json)
        → is_session_authenticated lib env sid w ≡ true
        → handle_request lib hasher env (typing_request lib target is_typing) sid w
          ≡ send_typing_status lib env (w.sessions sid).username target is_typing w
    unfolding handle_request dispatch handle_typing typing_request
    typing_understood target b sid w auth =
        let fs : List (String × Value) =
          ("is_typing", flag b) ∷ ("to", text target) ∷ ("type", text "typing") ∷ [] in
        rw
          (
            has lib laws fs "type",
            text_at lib laws fs "type",
            auth,
            has lib laws fs "to",
            has lib laws fs "is_typing",
            text_at lib laws fs "to",
            flag_at lib laws fs "is_typing",
          )
          refl

    -- The server carries out the client's requests to register and to log in, from any
    -- session and in any state, with the values that the user gave.
    pub accounts_understood :
        (username email password : String) (sid : ℕ) (w : World Json)
        → (handle_request lib hasher env (register_request lib username email password) sid w
            ≡ register_with lib hasher env username email password sid w)
          × (handle_request lib hasher env (login_request lib username password) sid w
              ≡ login_with lib hasher env username password sid w)
    accounts_understood u e p sid w = (register_understood u e p sid w, login_understood u p sid w)

    -- From a session that is logged in, the server delivers the client's message to the user
    -- whom the chat is with and confirms it, and passes typing status on to that user under
    -- the session's name.
    pub chats_understood :
        (target content : String) (is_typing : Bool) (sid : ℕ) (w : World Json)
        → is_session_authenticated lib env sid w ≡ true
        → (handle_request lib hasher env (chat_request lib target content) sid w
            ≡ send_response lib env sid "message" true "Message sent" (
                deliver_message lib env
                  (chat_request lib target content)
                  (w.sessions sid).user_id
                  target
                  w))
          × (handle_request lib hasher env (typing_request lib target is_typing) sid w
              ≡ send_typing_status lib env (w.sessions sid).username target is_typing w)
    chats_understood target content b sid w auth =
        (chat_understood target content sid w auth, typing_understood target b sid w auth)
