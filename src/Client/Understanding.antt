-- ===== src/Client/Understanding.antt =====
-- What server/json_parser.cpp and server/router.cpp send, in the handlers of
-- client/message_receiver.cpp.
pub mod Sent
use asynchronous_messenger.Base.{
  ℕ, String, Bool, true, false, ◌&&◌, ◌≡◌, refl, ◌∙◌, ◌⊎◌, inl, inr, Option, none, some, List, [],
  ◌∷◌, ◌==◌, string_eq, if◌then◌else◌, append, text_length, text_drop, Bool-cases, Option-cases,
  if_cases, if_true, Each, Each-map,
}
use asynchronous_messenger.Json.{
  JsonLib, JsonLaws, Value, text, flag, number, string_of, time_of, value_time, value_bool,
}
use asynchronous_messenger.Json.Objects.{
  build, assigned, has, text_at, flag_at, time_at, build-contains, build-string, build-bool,
  build-time,
}
use asynchronous_messenger.Env.{Env}
use asynchronous_messenger.Database.{Db, DbFile, Message, get_user_by_id}
use asynchronous_messenger.Session.{World}
use asynchronous_messenger.Router.{
  delivery, stored_message, typing_message, name_or_unknown, put_sender,
}
use asynchronous_messenger.JsonParser.{response}
use asynchronous_messenger.Server.Composed.{
  Subject, registration, login, chat, problem, Composed, answered, relayed, told, kept,
}
use asynchronous_messenger.Server.Reach.{Reach}
use asynchronous_messenger.Server.Sending.{Reach-SendsComposed}
use asynchronous_messenger.Client.{Client, Net, Notice, notify}
use asynchronous_messenger.Client.Receiver.{
  is_response, on_login, on_register, handle_server_response, handle_chat_message,
  handle_typing_status, handle_typed,
}

-- The types of the messages that a client gets.
pub data ServerType : String → Type 0 where
  answer_type : {subject : String} → Subject subject → ServerType (append subject "_response")
  message_type : ServerType "message"
  typing_type : ServerType "typing"

Subject-is_response :
    (subject : String) → Subject subject → is_response (append subject "_response") ≡ true
unfolding is_response append text_length text_drop
Subject-is_response subject registration = refl
Subject-is_response subject login = refl
Subject-is_response subject chat = refl
Subject-is_response subject problem = refl

module _ {Json : Type 0} (lib : JsonLib Json) (net : Net) where
  -- The message has a type that the client knows, and the handler of that type throws nothing.
  abbrev pub Handled : Client Json → Json → Type 0
  Handled c m =
      (t : String) × ServerType t
      × (lib.contains m "type" ≡ true)
      × (lib.as_string m "type" ≡ some t)
      × ((c' : Client Json) × (handle_typed lib net t m c ≡ some c'))

  -- The copy of a message whose members "from" or "stored" have another type than they should.
  abbrev pub Unfit : Json → Type 0
  Unfit m =
      (lib.as_string m "type" ≡ some "message")
      × ((lib.as_string m "from" ≡ none) ⊎ (value_bool lib m "stored" false ≡ none))

  pub chat-Handled :
      (m : Json) (content : String) (n : ℕ) (c : Client Json)
      → lib.contains m "type" ≡ true
      → lib.as_string m "type" ≡ some "message"
      → lib.as_string m "content" ≡ some content
      → value_time lib m "timestamp" net.time ≡ some n
      → Handled c m ⊎ Unfit m
  unfolding handle_typed handle_chat_message is_response text_length text_drop
  chat-Handled m content n c typed type filled time =
      elim (Bool-cases (lib.contains m "from" && lib.contains m "content")) [
        | inr short ↦ inl ("message", message_type, typed, type, (c, rw (short, handle_typed) refl))
        | inl full ↦ elim (Option-cases (lib.as_string m "from")) [
          | inl no_sender ↦ inr (type, inl no_sender)
          | inr (from, sender) ↦ elim (Option-cases (value_bool lib m "stored" false)) [
            | inl other ↦ inr (type, inr other)
            | inr (b, stored) ↦ inl (
              "message",
              message_type,
              typed,
              type,
              (
                notify (Notice.chat from content n) c,
                rw (full, sender, filled, time, stored, handle_typed) refl,
              ),
            )
          ]
        ]
      ]

module _ {Json : Type 0} (lib : JsonLib Json) (laws : JsonLaws lib) (net : Net) where
  pub response-Handled :
      (env : Env) {subject : String} (ok : Bool) (m : String) (c : Client Json)
      → Subject subject
      → Handled lib net c (response lib env subject ok m)
  unfolding handle_typed handle_server_response response
  response-Handled env {subject} ok m c s =
      let t = append subject "_response" in
      let fs : List (String × Value) =
        ("timestamp", number env.time)
        ∷ ("message", text m)
        ∷ ("success", flag ok)
        ∷ ("type", text t)
        ∷ [] in
      (
        t,
        answer_type s,
        has lib laws fs "type",
        text_at lib laws fs "type",
        (
          (if t == "login_response"
              then (if ok then on_login c else c)
              else if t == "register_response"
              then (if ok then on_register c else c)
              else c),
          rw
              (
                Subject-is_response subject s,
                text_at lib laws fs "type",
                has lib laws fs "success",
                flag_at lib laws fs "success",
                has lib laws fs "message",
                text_at lib laws fs "message",
              )
              refl,
        ),
      )

  pub typing-Handled :
      (env : Env) (from : String) (b : Bool) (c : Client Json)
      → Handled lib net c (typing_message lib env from b)
  unfolding handle_typed handle_typing_status is_response typing_message text_length text_drop
  typing-Handled env from b c =
      let fs : List (String × Value) =
        ("timestamp", number env.time)
        ∷ ("is_typing", flag b)
        ∷ ("from", text from)
        ∷ ("type", text "typing")
        ∷ [] in
      (
        "typing",
        typing_type,
        has lib laws fs "type",
        text_at lib laws fs "type",
        (
          notify (Notice.typing from b) c,
          rw
              (
                has lib laws fs "from",
                has lib laws fs "is_typing",
                text_at lib laws fs "from",
                flag_at lib laws fs "is_typing",
              )
              refl,
        ),
      )
