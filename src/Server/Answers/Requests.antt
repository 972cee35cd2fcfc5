-- ===== src/Server/Answers/Requests.antt =====
-- The handlers of server/json_parser.cpp and server/router.cpp: which of their messages are answers.
use asynchronous_messenger.Base.{
  ℕ, String, true, false, not, ◌||◌, ◌≡◌, refl, ap, ◌∙◌, Option, some, List, [], ◌∷◌, ◌==◌, nat_eq,
  string_eq, arith, Option-cases, inl, inr, if_cases, bind_cases, is_empty, try◌catch◌,
}
use asynchronous_messenger.Json.{JsonLib, JsonLaws, Serializes}
use asynchronous_messenger.Env.{Env}
use asynchronous_messenger.Database.{Message, get_user, store_message, get_offline_messages}
use asynchronous_messenger.UserManager.{get_session, get_session_by_username}
use asynchronous_messenger.Session.{World, send}
use asynchronous_messenger.Router.{
  delivery, deliver_to, deliver_message, route_message, send_typing_status, stored_message,
  send_all_stored, send_stored_messages,
}
use asynchronous_messenger.JsonParser.{
  send_response, handle_message, handle_typing, is_session_authenticated,
}
use asynchronous_messenger.Server.Answers.{Answers, Quiet, send-Quiet, quiet_then, Quiet-Quiet}
use asynchronous_messenger.Server.Answers.Kinds.{
  answer_message, typing-no_answer, stored-no_answer, delivery-no_answer,
}

module _ {Json : Type 0} (lib : JsonLib Json) (laws : JsonLaws lib) (s : Serializes lib)
    (env : Env) where
  deliver_to-Quiet :
      (m : Json) (from r : ℕ) (c : String) (w : World Json)
      → lib.is_settable m ≡ true
      → lib.as_string m "type" ≡ some "message"
      → Quiet lib w (deliver_to lib env m from r c w)
  unfolding deliver_to
  deliver_to-Quiet m from r c w settable typed = elim (Option-cases (get_session r w.manager)) [
    | inl e ↦ rw (e, deliver_to) (λ k. refl)
    | inr (to, e) ↦
        let stored = store_message env from r c true false "" w.db in
        let w' = record w { db = stored.1 } in
        rw (e, deliver_to)
          (if_cases (Quiet lib w) stored.0 _ _
            (λ _.
              send-Quiet lib s to (delivery lib env m from stored.1) w'
                (delivery-no_answer lib laws s env m from stored.1 settable typed))
            (λ _ k. refl))
  ]

  deliver_message-Quiet :
      (m : Json) (from : ℕ) (to : String) (w : World Json)
      → lib.is_settable m ≡ true
      → lib.as_string m "type" ≡ some "message"
      → Quiet lib w (deliver_message lib env m from to w)
  unfolding deliver_message
  deliver_message-Quiet m from to w settable typed = elim (Option-cases (get_user env to w.db)) [
    | inl e ↦ rw (e, deliver_message) (λ k. refl)
    | inr (user, e) ↦
        rw (e, deliver_message)
          (bind_cases (Quiet lib w) (lib.as_string m "content") _ w (λ k. refl)
            (λ c _. deliver_to-Quiet m from user.id c w settable typed))
  ]

  route_message-Quiet :
      (m : Json) (from : ℕ) (w : World Json)
      → lib.is_settable m ≡ true
      → Quiet lib w (route_message lib env m from w)
  unfolding route_message
  route_message-Quiet m from w settable =
      bind_cases (Quiet lib w) (lib.as_string m "type") _ w (λ k. refl)
        λ t typed.
          if_cases (λ (o : Option (World Json)). Quiet lib w (try o catch w)) (t == "message") _ _
            (λ is.
              bind_cases (Quiet lib w) (lib.as_string m "to") _ w (λ k. refl)
                (λ to _.
                  deliver_message-Quiet m from to w settable
                    (typed ∙ ap some ((string_eq.same_iff t "message").0 is))))
            (λ _ k. refl)

  send_all_stored-Quiet :
      (ms : List Message) (sid : ℕ) (w : World Json)
      → Quiet lib w (send_all_stored lib env ms sid w)
  unfolding send_all_stored
  send_all_stored-Quiet [] sid w = λ k. refl
  send_all_stored-Quiet (m ∷ ms) sid w =
      let msg = stored_message lib env w.db m in
      Quiet-Quiet lib w (send lib sid msg w) (send_all_stored lib env ms sid (send lib sid msg w))
        (send-Quiet lib s sid msg w (stored-no_answer lib laws s env w.db m))
        (send_all_stored-Quiet ms sid (send lib sid msg w))

  pub send_stored-Quiet :
      (u sid : ℕ) (w : World Json) → Quiet lib w (send_stored_messages lib env u sid w)
  unfolding send_stored_messages
  send_stored-Quiet u sid w =
      let ms = get_offline_messages env u w.db in
      if_cases (Quiet lib w) (is_empty ms) _ _ (λ _ k. refl) (λ _. send_all_stored-Quiet ms sid w)

  -- A session is answered exactly once for a message, and never for typing status.
  pub message_answers :
      (m : Json) (sid : ℕ) (w : World Json) → Answers lib 1 sid w (handle_message lib env m sid w)
  unfolding handle_message
  message_answers m sid w =
      if_cases (Answers lib 1 sid w) (not (is_session_authenticated lib env sid w)) _ _
        (λ _. answer_message lib laws s env sid _ _ w)
        λ _.
          if_cases (Answers lib 1 sid w)
            (not (lib.contains m "to") || not (lib.contains m "content")) _ _
            (λ _. answer_message lib laws s env sid _ _ w)
            λ addressed.
              let u = (w.sessions sid).user_id in
              let settable = laws.contains_settable m "to" (ground (arith, addressed)) in
              let routed = route_message lib env m u w in
              quiet_then lib 1 sid w routed
                (send_response lib env sid "message" true "Message sent" routed)
                (route_message-Quiet m u w settable)
                (answer_message lib laws s env sid true "Message sent" routed)

  pub typing-Quiet :
      (m : Json) (sid : ℕ) (w : World Json) → Quiet lib w (handle_typing lib env m sid w)
  unfolding handle_typing send_typing_status
  typing-Quiet m sid w =
      if_cases (Quiet lib w) (not (is_session_authenticated lib env sid w)) _ _ (λ _ k. refl)
        λ _.
          if_cases (Quiet lib w) (not (lib.contains m "to") || not (lib.contains m "is_typing")) _ _
            (λ _ k. refl)
            λ _.
              bind_cases (Quiet lib w) (lib.as_string m "to") _ w (λ k. refl)
                λ to _.
                  bind_cases (Quiet lib w) (lib.as_bool m "is_typing") _ w (λ k. refl)
                    λ b _. elim (Option-cases (get_session_by_username to w.manager)) [
                      | inl e ↦ rw (e, send_typing_status) (λ k. refl)
                      | inr (k, e) ↦
                          rw (e, send_typing_status)
                            (send-Quiet lib s k _ w
                              (typing-no_answer lib laws s env (w.sessions sid).username b))
                    ]
