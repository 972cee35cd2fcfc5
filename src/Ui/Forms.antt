-- ===== src/Ui/Forms.antt =====
-- What the menus of client/client_ui.cpp ask of the server.
use asynchronous_messenger.Base.{
  ℕ, String, Bool, false, not, ◌||◌, ◌==◌, string_eq, ◌≡◌, ◌⊎◌, refl, sym, subst, arith, [], ◌∷◌,
  ◌++◌, if_cases, blank, inl, inr, Option-cases,
}
use asynchronous_messenger.Json.{JsonLib}
use asynchronous_messenger.Client.{
  ClientState, awaiting_login, menu, Client, Net, transition_to_state,
}
use asynchronous_messenger.Client.Connection.{send_raw, send_request, handle_error, disconnect}
use asynchronous_messenger.Client.Receiver.{on_error, stop_listening}
use asynchronous_messenger.Client.Machine.{
  Action, act, registering, logging_in, starting_chat, logging_out, is_awaiting_login, start_chat,
  logout, login_user, request_registration, login_request, register_request,
}
use asynchronous_messenger.Ui.{Ui, row}
use asynchronous_messenger.Ui.Screen.{put, display_error, display_system_message, call}
use asynchronous_messenger.Ui.Menus.{
  Answers, ask, login_prompts, registration_prompts, perform_login, perform_registration,
  handle_login_menu, handle_main_menu, handle_menu, end_turn,
}
use asynchronous_messenger.Ui.Calls.{call-client}

-- A request to log in or to register, with every field filled in.
pub data FilledIn {Json : Type 0} (lib : JsonLib Json) : Json → Type 0 where
  login_form :
      (username password : String)
      → blank username ≡ false
      → blank password ≡ false
      → FilledIn lib (login_request lib username password)
  registration_form :
      (username email password : String)
      → blank username ≡ false
      → blank email ≡ false
      → blank password ≡ false
      → FilledIn lib (register_request lib username email password)

module _ {Json : Type 0} (lib : JsonLib Json) (net : Net) where
  -- Nothing was sent, or that message.
  abbrev SentAtMost : Json → Client Json → Client Json → Type 0
  SentAtMost m c d =
      (d.connection.sent ≡ c.connection.sent) ⊎ (d.connection.sent ≡ c.connection.sent ++ m ∷ [])

  error-unsent :
      (e : String) (c : Client Json) → (handle_error e c).connection.sent ≡ c.connection.sent
  unfolding handle_error on_error
  error-unsent e c = ground arith

  request_at_most : (m : Json) (c : Client Json) → SentAtMost m c (send_request lib net m c)
  unfolding send_request send_raw
  request_at_most m c = elim (Option-cases (lib.dump m)) [
    | inl e ↦ rw (e, send_request) (inl (error-unsent _ c))
    | inr (text, e) ↦
        rw (e, send_request)
          (if_cases (SentAtMost m c) (not c.connection.connected) _ _ (λ _. inl (error-unsent _ c))
            (λ _.
              if_cases (SentAtMost m c) net.writes _ _ (λ _. inr refl)
                (λ _. inl (error-unsent _ c))))
  ]

  login_at_most :
      (u p : String) (c : Client Json)
      → SentAtMost (login_request lib u p) c (act lib net (logging_in u p) c)
  unfolding act login_user
  login_at_most u p c =
      if_cases (λ (r : Bool × Client Json). SentAtMost (login_request lib u p) c r.1)
        (not (is_awaiting_login c.machine.current_state)) _ _ (λ _. inl refl)
        (λ _. request_at_most (login_request lib u p) c)

  registration_at_most :
      (u e p : String) (c : Client Json)
      → SentAtMost (register_request lib u e p) c (act lib net (registering u e p) c)
  unfolding act request_registration
  registration_at_most u e p c =
      if_cases (λ (r : Bool × Client Json). SentAtMost (register_request lib u e p) c r.1)
        (not (is_awaiting_login c.machine.current_state)) _ _ (λ _. inl refl)
        (λ _. request_at_most (register_request lib u e p) c)

  unsent_otherwise :
      (name : String) (c : Client Json)
      → ((act lib net (starting_chat name) c).connection.sent ≡ c.connection.sent)
        × ((act lib net logging_out c).connection.sent ≡ c.connection.sent)
  unfolding act start_chat logout stop_listening disconnect transition_to_state
  unsent_otherwise name c = (ground arith, ground arith)

  module _ (format_time : ℕ → String) (now : ℕ) where
    -- What a client sends in the answers to a menu.
    abbrev pub SentForm : Client Json → Client Json → Type 0
    SentForm c d =
        (d.connection.sent ≡ c.connection.sent)
        ⊎ ((m : Json) × (d.connection.sent ≡ c.connection.sent ++ m ∷ []) × FilledIn lib m)

    form :
        (a : Action) (m : Json) (ui : Ui Json)
        → FilledIn lib m
        → SentAtMost m ui.client (act lib net a ui.client)
        → SentForm ui.client (call format_time lib net now a ui).client
    form a m ui filled at_most =
        subst (SentForm ui.client) (sym (call-client lib format_time net now a ui))
          (elim at_most [ inl e ↦ inl e | inr e ↦ inr (m, e, filled) ])

    no_form :
        (a : Action) (ui : Ui Json)
        → (act lib net a ui.client).connection.sent ≡ ui.client.connection.sent
        → SentForm ui.client (call format_time lib net now a ui).client
    no_form a ui e =
        subst (SentForm ui.client) (sym (call-client lib format_time net now a ui)) (inl e)

    login_forms :
        (a : Answers) (ui : Ui Json)
        → SentForm ui.client (handle_login_menu lib format_time net now a ui).1.client
    unfolding handle_login_menu perform_login perform_registration login_prompts
        registration_prompts ask display_error
    login_forms a ui =
        let R : Bool × Ui Json → Type 0 = λ r. SentForm ui.client r.1.client in
        if_cases R (a.choice == "1") _ _
          (λ _.
            if_cases R (blank a.username || blank a.password) _ _ (λ _. inl refl)
              (λ full.
                form (logging_in a.username a.password) _
                  (put (row "Выполняется вход...") (login_prompts ui))
                  (login_form a.username a.password (ground (arith, full)) (ground (arith, full)))
                  (login_at_most a.username a.password ui.client)))
          (λ _.
            if_cases R (a.choice == "2") _ _
              (λ _.
                if_cases R (blank a.username || blank a.email || blank a.password) _ _
                  (λ _. inl refl)
                  (λ full.
                    form (registering a.username a.email a.password) _
                      (put (row "Выполняется регистрация...") (registration_prompts ui))
                      (registration_form a.username a.email a.password (ground (arith, full))
                        (ground (arith, full)) (ground (arith, full)))
                      (registration_at_most a.username a.email a.password ui.client)))
              (λ _. if_cases R (a.choice == "3") _ _ (λ _. inl refl) (λ _. inl refl)))

    main_forms :
        (a : Answers) (ui : Ui Json)
        → SentForm ui.client (handle_main_menu lib format_time net now a ui).1.client
    unfolding handle_main_menu ask display_error display_system_message
    main_forms a ui =
        let R : Bool × Ui Json → Type 0 = λ r. SentForm ui.client r.1.client in
        if_cases R (a.choice == "1") _ _ (λ _. inl refl)
          (λ _.
            if_cases R (a.choice == "2") _ _
              (λ _.
                if_cases R (not (blank a.username)) _ _
                  (λ _.
                    no_form (starting_chat a.username) (ask "Введите имя пользователя для чата" ui)
                      (unsent_otherwise a.username ui.client).0)
                  (λ _. inl refl))
              (λ _.
                if_cases R (a.choice == "3") _ _
                  (λ _. no_form logging_out ui (unsent_otherwise "" ui.client).1) (λ _. inl refl)))

    menu_forms :
        (s : ClientState) (a : Answers) (ui : Ui Json)
        → SentForm ui.client (handle_menu lib format_time net now s a ui).1.client
    unfolding handle_menu
    menu_forms awaiting_login a ui = login_forms a ui
    menu_forms menu a ui = main_forms a ui
    menu_forms _ a ui = inl refl

    -- Whatever is answered to a menu, in whatever state the client is by then, nothing is
    -- sent, or one request to log in or to register, and none of its fields is empty.
    pub answers_filled_in :
        (s : ClientState) (a : Answers) (ui : Ui Json)
        → SentForm ui.client (end_turn lib format_time net now s a ui).client
    unfolding end_turn
    answers_filled_in s a ui =
        if_cases (λ (u : Ui Json). SentForm ui.client u.client)
          (not (handle_menu lib format_time net now s a ui).0) _ _ (λ _. menu_forms s a ui)
          (λ _. menu_forms s a ui)
