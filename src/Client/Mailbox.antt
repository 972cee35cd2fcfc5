-- ===== src/Client/Mailbox.antt =====
-- A chat message to a user who is not logged in through all the parts, and the messages table, to
-- the user's next login.
use asynchronous_messenger.Base.{
  ℕ, ◌+◌, arith, String, true, false, ◌≡◌, refl, ◌∙◌, ap, Option, none, some, List, [], ◌∷◌, ◌++◌,
  c_str, c_str_idem,
}
use mathlib.Core.List.Perm
use mathlib.Core.List.{Mem, mem-cons_self, mem-append_right, mem-map_of_mem}
use asynchronous_messenger.Json.{JsonLib, JsonLaws, Serializes}
use asynchronous_messenger.Env.{Env, MessageRow, IsHealthy, Orders}
use asynchronous_messenger.Database.{
  Db, User, Message, get_user, get_user_by_id, new_message, message_of_row, get_offline_messages,
}
use asynchronous_messenger.Database.Messages.{waiting, get_offline_messages-perm}
use asynchronous_messenger.UserManager.{get_session, authenticate_user}
use asynchronous_messenger.Session.{World}
use asynchronous_messenger.Session.Store.{send-db}
use asynchronous_messenger.Router.{deliver_message, stored_message, name_or_unknown}
use asynchronous_messenger.Router.Delivery.{deliver_offline, deliver_offline-db}
use asynchronous_messenger.JsonParser.{
  is_session_authenticated, handle_request, response, send_response,
}
use asynchronous_messenger.JsonParser.Login.{login_delivers}
use asynchronous_messenger.Client.{Client, Net, chat, notify}
use asynchronous_messenger.Client.Receiver.{handle_incoming_message}
use asynchronous_messenger.Client.Machine.{chat_request, login_request}
use asynchronous_messenger.Client.Protocol.{chats_understood, accounts_understood}
use asynchronous_messenger.Client.Display.{stored_shown}
use asynchronous_messenger.Client.Conversation.{chat_request-content}

module _ {Json : Type 0} (lib : JsonLib Json) (laws : JsonLaws lib) (hasher : String → ℕ) where
  -- The message as it waits.
  abbrev pub waiting_message : Env → ℕ → ℕ → String → Db → Message
  waiting_message env sender receiver content db =
      message_of_row (new_message env sender receiver content false false "" db)

  chat_waits :
      (env : Env) (target content : String) (sid : ℕ) (w : World Json) (receiver : User)
      → IsHealthy env
      → is_session_authenticated lib env sid w ≡ true
      → get_user env target w.db ≡ some receiver
      → get_session receiver.id w.manager ≡ none
      → Mem (waiting_message env (w.sessions sid).user_id receiver.id content w.db) (
          waiting receiver.id
            (handle_request lib hasher env (chat_request lib target content) sid w).db)
  unfolding send_response
  chat_waits env target content sid w receiver ok auth to offline =
      let m = chat_request lib target content in
      let u = (w.sessions sid).user_id in
      let answer = response lib env "message" true "Message sent" in
      let w1 = deliver_message lib env m u target w in
      let handled = (chats_understood lib laws hasher env target content true sid w auth).0 in
      let stored : waiting receiver.id w1.db
          ≡ waiting receiver.id w.db ++ waiting_message env u receiver.id content w.db ∷ [] =
        (deliver_offline lib env m u target w receiver content (receiver.id + 1) ok to
          (chat_request-content lib laws env target content) offline (λ e. omega (arith, e))).0 in
      rw handled (
        rw (ap (waiting receiver.id) (send-db lib sid answer w1) ∙ stored)
          (mem-append_right (waiting receiver.id w.db) mem-cons_self))

  chat_waits-db :
      (env : Env) (target content : String) (sid : ℕ) (w : World Json) (receiver : User)
      → IsHealthy env
      → is_session_authenticated lib env sid w ≡ true
      → get_user env target w.db ≡ some receiver
      → get_session receiver.id w.manager ≡ none
      → (handle_request lib hasher env (chat_request lib target content) sid w).db ≡ record w.db {
        messages =
            w.db.messages
            ++ new_message env (w.sessions sid).user_id receiver.id content false false "" w.db
              ∷ [];
        next_message_id = w.db.next_message_id + 1;
      }
  unfolding send_response
  chat_waits-db env target content sid w receiver ok auth to offline =
      let m = chat_request lib target content in
      let u = (w.sessions sid).user_id in
      let answer = response lib env "message" true "Message sent" in
      ap (λ (v : World Json). v.db)
        (chats_understood lib laws hasher env target content true sid w auth).0
      ∙ send-db lib sid answer (deliver_message lib env m u target w)
      ∙ deliver_offline-db lib env m u target w receiver content ok to
          (chat_request-content lib laws env target content) offline

  -- Messages do not change what is found of accounts.
  found_same :
      (env : Env) (i next : ℕ) (db : Db) (messages : List MessageRow)
      → get_user_by_id env i (record db { messages = messages; next_message_id = next })
        ≡ get_user_by_id env i db
  unfolding get_user_by_id
  found_same env i next db messages = refl

  authenticated_same :
      (env : Env) (name password : String) (next : ℕ) (db : Db) (messages : List MessageRow)
      → authenticate_user hasher env name password
          (record db { messages = messages; next_message_id = next })
        ≡ authenticate_user hasher env name password db
  unfolding authenticate_user get_user
  authenticated_same env name password next db messages = refl

  -- A client's chat message to a user who is not logged in, while SQLite works and every
  -- message can be serialized: when the user then logs in with the right password, a message is
  -- sent to the session of the login that any client hands to its user interface with the
  -- sender's name and with the content up to its first NUL; after that, nothing waits for the
  -- user.
  pub chat_waits_and_reaches :
      (env later : Env) (net : Net) (target password content : String) (sid session : ℕ)
      (w : World Json) (sender receiver : User) (c : Client Json)
      → Serializes lib
      → IsHealthy env
      → IsHealthy later
      → Orders later
      → is_session_authenticated lib env sid w ≡ true
      → get_user_by_id later (w.sessions sid).user_id w.db ≡ some sender
      → get_user env target w.db ≡ some receiver
      → get_session receiver.id w.manager ≡ none
      → authenticate_user hasher later target password w.db ≡ some receiver.id
      → let w1 = handle_request lib hasher env (chat_request lib target content) sid w in
        let w2 = handle_request lib hasher later (login_request lib target password) session w1 in
        (m : Json) × Mem m (w2.sessions session).sent
        × (handle_incoming_message lib net m c
            ≡ notify (chat sender.username (c_str content) later.time) c)
        × (waiting receiver.id w2.db ≡ [])
  chat_waits_and_reaches env later net target password content sid k w sender receiver c s ok ok'
        ordered auth from to offline login =
      let w1 = handle_request lib hasher env (chat_request lib target content) sid w in
      let db = chat_waits-db env target content sid w receiver ok auth to offline in
      let msg = waiting_message env (w.sessions sid).user_id receiver.id content w.db in
      let done = login_delivers lib hasher later target password k receiver.id w1 s ok' ordered (
        ap (authenticate_user hasher later target password) db
        ∙ authenticated_same later target password _ w.db _
        ∙ login) in
      let waits = chat_waits env target content sid w receiver ok auth to offline in
      let read : Mem msg (get_offline_messages later receiver.id w1.db) =
        (Perm.mem_iff (get_offline_messages-perm later receiver.id w1.db ok' ordered)).1 waits in
      let known =
        ap (get_user_by_id later (w.sessions sid).user_id) db
        ∙ found_same later _ _ w.db _
        ∙ from in
      let entered = (accounts_understood lib laws hasher later target "" password k w1).1 in
      (
        stored_message lib later w1.db msg,
        rw entered (
            rw (done.0)
              (mem-append_right _ (mem-map_of_mem (stored_message lib later w1.db) read))),
        stored_shown lib laws later net w1.db msg c
            ∙ ap
                (λ (n : Option User).
                  notify (chat (name_or_unknown lib later n) msg.content later.time) c)
                known
            ∙ ap (λ (t : String). notify (chat sender.username t later.time) c)
                (c_str_idem content),
        rw entered (done.2),
      )
