-- ===== src/Client/Conversation.antt =====
-- A chat message through all the parts: client/client_state_machine.cpp, server/json_parser.cpp,
-- server/router.cpp and client/message_receiver.cpp.
use asynchronous_messenger.Base.{
  ℕ, String, Bool, true, false, ◌≡◌, ◌≢◌, ◌∙◌, sym, ap, some, [], ◌∷◌, ◌++◌,
}
use asynchronous_messenger.Json.{JsonLib, JsonLaws, Serializes, text}
use asynchronous_messenger.Json.Objects.{text_at}
use asynchronous_messenger.Env.{Env, IsHealthy}
use asynchronous_messenger.Database.{Db, User, get_user, get_user_by_id}
use asynchronous_messenger.Database.Messages.{store_message-messages}
use asynchronous_messenger.UserManager.{get_session}
use asynchronous_messenger.Session.{World}
use asynchronous_messenger.Session.Store.{send-sent, send-other}
use asynchronous_messenger.Router.{delivery, deliver_message}
use asynchronous_messenger.Router.Delivery.{stored_delivered, deliver_online}
use asynchronous_messenger.JsonParser.{
  is_session_authenticated, handle_request, response, send_response,
}
use asynchronous_messenger.Client.{Client, Net, chat, notify}
use asynchronous_messenger.Client.Receiver.{handle_incoming_message}
use asynchronous_messenger.Client.Machine.{chat_request}
use asynchronous_messenger.Client.Protocol.{chats_understood}
use asynchronous_messenger.Client.Display.{delivery_shown}

module _ {Json : Type 0} (lib : JsonLib Json) (laws : JsonLaws lib) (env : Env) where
  pub chat_request-content :
      (target content : String)
      → lib.as_string (chat_request lib target content) "content" ≡ some content
  unfolding chat_request
  chat_request-content target content =
      text_at lib laws
        (("content", text content) ∷ ("to", text target) ∷ ("type", text "message") ∷ []) "content"

  -- Storing a message does not change who has which id.
  get_user_by_id-stored :
      (i sender receiver : ℕ) (content : String) (db : Db)
      → IsHealthy env
      → get_user_by_id env i (stored_delivered lib env sender receiver content db)
        ≡ get_user_by_id env i db
  unfolding get_user_by_id
  get_user_by_id-stored i s r c db ok =
      ap (λ (o : Bool × Db). get_user_by_id env i o.1)
        (store_message-messages env s r c true false "" db ok)

  module _ (hasher : String → ℕ) (net : Net) where
    -- A client's chat message, while SQLite works and every message can be serialized, from a
    -- session that is logged in to a user who is logged in from another session: the server
    -- sends one message to the receiver's session, which any client hands to its user
    -- interface with the sender's name as the database has it and with the content as it was
    -- written, and confirms the message to the sender.
    pub chat_reaches :
        (target content : String) (sid session : ℕ) (w : World Json) (sender receiver : User)
        (c : Client Json)
        → Serializes lib
        → IsHealthy env
        → is_session_authenticated lib env sid w ≡ true
        → get_user_by_id env (w.sessions sid).user_id w.db ≡ some sender
        → get_user env target w.db ≡ some receiver
        → get_session receiver.id w.manager ≡ some session
        → session ≢ sid
        → let w' = handle_request lib hasher env (chat_request lib target content) sid w in
          (m : Json) × ((w'.sessions session).sent ≡ (w.sessions session).sent ++ m ∷ [])
          × (handle_incoming_message lib net m c ≡ notify (chat sender.username content env.time) c)
          × ((w'.sessions sid).sent
              ≡ (w.sessions sid).sent ++ response lib env "message" true "Message sent" ∷ [])
    unfolding send_response
    chat_reaches target content sid k w sender receiver c s ok auth from to online ne =
        let m = chat_request lib target content in
        let u = (w.sessions sid).user_id in
        let db' = stored_delivered lib env u receiver.id content w.db in
        let d = delivery lib env m u db' in
        let delivered =
          deliver_online lib env m u target w receiver content k sid u _ ok to
            (chat_request-content target content) online ((s.dumps d).1) ne in
        let answer = response lib env "message" true "Message sent" in
        let w1 = deliver_message lib env m u target w in
        let handled = (chats_understood lib laws hasher env target content true sid w auth).0 in
        (
          d,
          rw handled
              (ap (λ x. x.sent) (send-other lib sid k answer w1 (λ e. ne (sym e))) ∙ delivered.0),
          delivery_shown lib laws env net target content u db' sender c
              (get_user_by_id-stored u u receiver.id content w.db ok ∙ from),
          rw handled (
              send-sent lib sid answer w1 _ ((s.dumps answer).1)
              ∙ ap (λ x. x.sent ++ answer ∷ []) delivered.1),
        )
