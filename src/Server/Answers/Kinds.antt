-- ===== src/Server/Answers/Kinds.antt =====
-- The messages that server/json_parser.cpp and server/router.cpp build: which of them are answers.
use asynchronous_messenger.Base.{
  ℕ, String, Bool, true, false, ◌≡◌, refl, some, List, [], ◌∷◌, nat_eq, string_eq, arith,
  Option-cases, inl, inr, if_cases, append, text_length, text_drop,
}
use asynchronous_messenger.Json.{JsonLib, JsonLaws, Serializes, Value, text, flag, number}
use asynchronous_messenger.Json.Objects.{text_at, build-string}
use asynchronous_messenger.Env.{Env}
use asynchronous_messenger.Database.{Db, Message, get_user_by_id}
use asynchronous_messenger.Session.{World}
use asynchronous_messenger.Router.{
  delivery, typing_message, stored_message, name_or_unknown, put_sender,
}
use asynchronous_messenger.JsonParser.{response, send_response}
use asynchronous_messenger.Client.Receiver.{is_response}
use asynchronous_messenger.Server.Answers.{is_answer, Answers, send_answers}

module _ {Json : Type 0} (lib : JsonLib Json) (laws : JsonLaws lib) (s : Serializes lib)
    (env : Env) where
  response-answer :
      (type : String) (ok : Bool) (m : String)
      → is_response (append type "_response") ≡ true
      → is_answer lib (response lib env type ok m) ≡ true
  unfolding is_answer response
  response-answer type ok m is =
      let fs : List (String × Value) =
        ("timestamp", number env.time)
        ∷ ("message", text m)
        ∷ ("success", flag ok)
        ∷ ("type", text (append type "_response"))
        ∷ [] in
      rw (text_at lib laws fs "type", is_answer) is

  pub typing-no_answer :
      (from : String) (b : Bool) → is_answer lib (typing_message lib env from b) ≡ false
  unfolding is_answer typing_message is_response text_length text_drop
  typing-no_answer from b =
      let fs : List (String × Value) =
        ("timestamp", number env.time)
        ∷ ("is_typing", flag b)
        ∷ ("from", text from)
        ∷ ("type", text "typing")
        ∷ [] in
      rw (text_at lib laws fs "type", is_answer) refl

  pub stored-no_answer :
      (db : Db) (m : Message) → is_answer lib (stored_message lib env db m) ≡ false
  unfolding is_answer stored_message is_response text_length text_drop
  stored-no_answer db m =
      let fs : List (String × Value) =
        ("stored", flag true)
        ∷ ("original_time", text m.sent_at)
        ∷ ("timestamp", number env.time)
        ∷ ("content", text m.content)
        ∷ ("from", text (name_or_unknown lib env (get_user_by_id env m.sender_id db)))
        ∷ ("type", text "message")
        ∷ [] in
      let gs : List (String × Value) =
        ("file_path", text m.file_path) ∷ ("is_file", flag true) ∷ fs in
      if_cases (λ (j : Json). is_answer lib j ≡ false) m.is_file _ _
        (λ _. rw (text_at lib laws gs "type", is_answer) refl)
        (λ _. rw (text_at lib laws fs "type", is_answer) refl)

  pub delivery-no_answer :
      (m : Json) (sender_id : ℕ) (db : Db)
      → lib.is_settable m ≡ true
      → lib.as_string m "type" ≡ some "message"
      → is_answer lib (delivery lib env m sender_id db) ≡ false
  unfolding is_answer delivery is_response text_length text_drop
  delivery-no_answer m sender_id db settable typed =
      let fs : List (String × Value) =
        ("delivered", flag true) ∷ ("timestamp", number env.time) ∷ [] in
      elim (Option-cases (get_user_by_id env sender_id db)) [
        | inl e ↦
            rw (e, put_sender)
              (rw (build-string lib laws m fs "type" settable, is_answer)
                (rw (typed, is_answer) refl))
        | inr (u, e) ↦
            let gs : List (String × Value) = ("from", text u.username) ∷ fs in
            rw (e, put_sender)
              (rw (build-string lib laws m gs "type" settable, is_answer)
                (rw (typed, is_answer) refl))
      ]

  pub response_answers :
      (sid : ℕ) (type : String) (ok : Bool) (m : String) (w : World Json)
      → is_response (append type "_response") ≡ true
      → Answers lib 1 sid w (send_response lib env sid type ok m w)
  unfolding send_response
  response_answers sid type ok m w is k =
      ground (
        arith,
        response-answer type ok m is,
        send_answers lib s sid (response lib env type ok m) w k,
      )

  -- The four kinds of answers.
  pub answer_register :
      (sid : ℕ) (ok : Bool) (m : String) (w : World Json)
      → Answers lib 1 sid w (send_response lib env sid "register" ok m w)
  unfolding is_response append text_length text_drop
  answer_register sid ok m w = response_answers sid "register" ok m w refl

  pub answer_login :
      (sid : ℕ) (ok : Bool) (m : String) (w : World Json)
      → Answers lib 1 sid w (send_response lib env sid "login" ok m w)
  unfolding is_response append text_length text_drop
  answer_login sid ok m w = response_answers sid "login" ok m w refl

  pub answer_message :
      (sid : ℕ) (ok : Bool) (m : String) (w : World Json)
      → Answers lib 1 sid w (send_response lib env sid "message" ok m w)
  unfolding is_response append text_length text_drop
  answer_message sid ok m w = response_answers sid "message" ok m w refl

  pub answer_error :
      (sid : ℕ) (ok : Bool) (m : String) (w : World Json)
      → Answers lib 1 sid w (send_response lib env sid "error" ok m w)
  unfolding is_response append text_length text_drop
  answer_error sid ok m w = response_answers sid "error" ok m w refl
