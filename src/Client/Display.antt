-- ===== src/Client/Display.antt =====
-- The messages that server/router.cpp and server/json_parser.cpp build in the handlers of
-- client/message_receiver.cpp.
use asynchronous_messenger.Base.{
  ℕ, String, Bool, true, false, ◌&&◌, ◌≡◌, refl, some, List, [], ◌∷◌, ◌==◌, string_eq,
  if◌then◌else◌, append, text_length, text_drop, Bool-cases, inl, inr,
}
use asynchronous_messenger.Json.{
  JsonLib, JsonLaws, Value, text, flag, number, value_time, value_bool,
}
use asynchronous_messenger.Json.Objects.{build, has, text_at, flag_at, time_at}
use asynchronous_messenger.Env.{Env}
use asynchronous_messenger.Database.{Db, User, Message, get_user_by_id}
use asynchronous_messenger.Router.{delivery, stored_message, typing_message, name_or_unknown}
use asynchronous_messenger.JsonParser.{response}
use asynchronous_messenger.Client.{Client, Net, chat, typing, notify}
use asynchronous_messenger.Client.Receiver.{
  is_response, on_login, on_register, handle_server_response, handle_chat_message,
  handle_typing_status, handle_typed, handle_incoming_message,
}
use asynchronous_messenger.Client.Machine.{chat_request}

module _ {Json : Type 0} (lib : JsonLib Json) (laws : JsonLaws lib) (env : Env) (net : Net) where
  -- The members of a response.
  abbrev members_of : String → Bool → String → List (String × Value)
  members_of type ok m =
      ("timestamp", number env.time)
      ∷ ("message", text m)
      ∷ ("success", flag ok)
      ∷ ("type", text (append type "_response"))
      ∷ []

  taken_as_response :
      (type : String) (ok : Bool) (m : String) (c : Client Json)
      → is_response (append type "_response") ≡ true
      → handle_incoming_message lib net (response lib env type ok m) c ≡ (
          if append type "_response" == "login_response"
          then (if ok then on_login c else c)
          else if append type "_response" == "register_response"
          then (if ok then on_register c else c)
          else c)
  unfolding handle_incoming_message handle_typed handle_server_response response
  taken_as_response type ok m c is =
      let fs : List (String × Value) = members_of type ok m in
      rw
        (
          has lib laws fs "type",
          text_at lib laws fs "type",
          is,
          has lib laws fs "success",
          flag_at lib laws fs "success",
          has lib laws fs "message",
          text_at lib laws fs "message",
        )
        refl

  -- A successful answer of the server to a login brings the client to its menu, one to a
  -- registration back to the login; failures, and all answers to messages and errors, change
  -- nothing at the client.
  pub responses_understood :
      (ok : Bool) (m : String) (c : Client Json)
      → (handle_incoming_message lib net (response lib env "login" ok m) c
          ≡ (if ok then on_login c else c))
        × (handle_incoming_message lib net (response lib env "register" ok m) c
            ≡ (if ok then on_register c else c))
        × (handle_incoming_message lib net (response lib env "message" ok m) c ≡ c)
        × (handle_incoming_message lib net (response lib env "error" ok m) c ≡ c)
  unfolding is_response append text_length text_drop
  responses_understood ok m c = (
    taken_as_response "login" ok m c refl,
    taken_as_response "register" ok m c refl,
    taken_as_response "message" ok m c refl,
    taken_as_response "error" ok m c refl,
  )

  -- A chat message that has all of its members.
  chat_taken :
      (m : Json) (from content : String) (t : ℕ) (stored : Bool) (c : Client Json)
      → lib.contains m "type" ≡ true
      → lib.as_string m "type" ≡ some "message"
      → lib.contains m "from" && lib.contains m "content" ≡ true
      → lib.as_string m "from" ≡ some from
      → lib.as_string m "content" ≡ some content
      → value_time lib m "timestamp" net.time ≡ some t
      → value_bool lib m "stored" false ≡ some stored
      → handle_incoming_message lib net m c ≡ notify (chat from content t) c
  unfolding handle_incoming_message handle_typed handle_chat_message is_response text_length
      text_drop
  chat_taken m from content t b c typed type full sender filled time stored =
      rw (typed, type, full, sender, filled, time, stored) refl

  -- A message that a client wrote in a chat, as the server passes it on.
  pub delivery_shown :
      (target content : String) (sender : ℕ) (db : Db) (user : User) (c : Client Json)
      → get_user_by_id env sender db ≡ some user
      → handle_incoming_message lib net
          (delivery lib env (chat_request lib target content) sender db)
          c
        ≡ notify (chat user.username content env.time) c
  unfolding delivery chat_request
  delivery_shown target content sender db user c found =
      let fs : List (String × Value) =
        ("from", text user.username)
        ∷ ("delivered", flag true)
        ∷ ("timestamp", number env.time)
        ∷ ("content", text content)
        ∷ ("to", text target)
        ∷ ("type", text "message")
        ∷ [] in
      rw (found, delivery)
        (chat_taken (build lib lib.null fs) user.username content env.time false c
          (has lib laws fs "type") (text_at lib laws fs "type")
          (rw (has lib laws fs "from", has lib laws fs "content") refl) (text_at lib laws fs "from")
          (text_at lib laws fs "content")
          (rw (has lib laws fs "timestamp") (time_at lib laws fs "timestamp"))
          (rw (has lib laws fs "stored", laws.null_contains "stored") refl))

  -- The members of a message that waited, and those that a file has besides.
  abbrev waited : String → Message → List (String × Value)
  waited from msg =
      ("stored", flag true)
      ∷ ("original_time", text msg.sent_at)
      ∷ ("timestamp", number env.time)
      ∷ ("content", text msg.content)
      ∷ ("from", text from)
      ∷ ("type", text "message")
      ∷ []

  abbrev waited_file : String → Message → List (String × Value)
  waited_file from msg =
      ("file_path", text msg.file_path) ∷ ("is_file", flag true) ∷ waited from msg

  -- A message that waited, as the server sends it after a login.
  pub stored_shown :
      (db : Db) (msg : Message) (c : Client Json)
      → handle_incoming_message lib net (stored_message lib env db msg) c
        ≡ notify
            (chat
              (name_or_unknown lib env (get_user_by_id env msg.sender_id db))
              msg.content
              env.time)
            c
  unfolding stored_message
  stored_shown db msg c =
      let from = name_or_unknown lib env (get_user_by_id env msg.sender_id db) in
      let fs = waited from msg in
      let gs = waited_file from msg in
      elim (Bool-cases msg.is_file) [
        | inl e ↦
            rw (e, stored_message)
              (chat_taken (build lib lib.null gs) from msg.content env.time true c
                (has lib laws gs "type") (text_at lib laws gs "type")
                (rw (has lib laws gs "from", has lib laws gs "content") refl)
                (text_at lib laws gs "from") (text_at lib laws gs "content")
                (rw (has lib laws gs "timestamp") (time_at lib laws gs "timestamp"))
                (rw (has lib laws gs "stored") (flag_at lib laws gs "stored")))
        | inr e ↦
            rw (e, stored_message)
              (chat_taken (build lib lib.null fs) from msg.content env.time true c
                (has lib laws fs "type") (text_at lib laws fs "type")
                (rw (has lib laws fs "from", has lib laws fs "content") refl)
                (text_at lib laws fs "from") (text_at lib laws fs "content")
                (rw (has lib laws fs "timestamp") (time_at lib laws fs "timestamp"))
                (rw (has lib laws fs "stored") (flag_at lib laws fs "stored")))
      ]

  -- Typing status, as the server passes it on, is handed to the client's user interface with
  -- the name that the server put in.
  pub typing_shown :
      (from : String) (is_typing : Bool) (c : Client Json)
      → handle_incoming_message lib net (typing_message lib env from is_typing) c
        ≡ notify (typing from is_typing) c
  unfolding handle_incoming_message handle_typed handle_typing_status is_response typing_message
      text_length text_drop
  typing_shown from b c =
      let fs : List (String × Value) =
        ("timestamp", number env.time)
        ∷ ("is_typing", flag b)
        ∷ ("from", text from)
        ∷ ("type", text "typing")
        ∷ [] in
      rw
        (
          has lib laws fs "type",
          text_at lib laws fs "type",
          has lib laws fs "from",
          has lib laws fs "is_typing",
          text_at lib laws fs "from",
          flag_at lib laws fs "is_typing",
        )
        refl
