-- ===== src/Ui/Turns.antt =====
-- The turns of handleUserInput (client/client_ui.cpp), and the invariant of the state.
use asynchronous_messenger.Base.{
  ℕ, String, Bool, false, not, ◌||◌, ◌==◌, string_eq, ◌≡◌, refl, arith, none, some, if_cases, blank,
}
use asynchronous_messenger.Json.{JsonLib}
use asynchronous_messenger.Client.{ClientState, disconnected, awaiting_login, menu, chatting, Net}
use asynchronous_messenger.Client.Machine.{
  connecting, registering, logging_in, starting_chat, logging_out, try_connect,
}
use asynchronous_messenger.Ui.{Ui, row}
use asynchronous_messenger.Ui.Screen.{
  put, display_error, display_system_message, display_login_menu, display_main_menu, call,
}
use asynchronous_messenger.Ui.Menus.{
  Answers, ask, login_prompts, registration_prompts, perform_login, perform_registration,
  handle_login_menu, handle_main_menu, begin_turn, handle_menu, end_turn,
}
use asynchronous_messenger.Ui.Invariant.{UiInv, call-UiInv}
use asynchronous_messenger.Ui.Keeping.{menus-UiInv, put-UiInv, enter_chat_mode-UiInv}

module _ {Json : Type 0} (lib : JsonLib Json) (format_time : ℕ → String) (net : Net) (now : ℕ) where
  perform_login-UiInv :
      (a : Answers) (ui : Ui Json) → UiInv ui → UiInv (perform_login lib format_time net now a ui).1
  unfolding perform_login login_prompts ask display_error
  perform_login-UiInv a ui h =
      let asked = login_prompts ui in
      let kept : UiInv asked = menus-UiInv ui.running ui.at_menu asked.screen ui h in
      if_cases (λ (r : Bool × Ui Json). UiInv r.1) (blank a.username || blank a.password) _ _
        (λ _. put-UiInv _ asked kept)
        (λ _.
          call-UiInv lib format_time net now (logging_in a.username a.password)
            (put (row "Выполняется вход...") asked) tt (put-UiInv _ asked kept))

  perform_registration-UiInv :
      (a : Answers) (ui : Ui Json)
      → UiInv ui
      → UiInv (perform_registration lib format_time net now a ui).1
  unfolding perform_registration registration_prompts ask display_error
  perform_registration-UiInv a ui h =
      let asked = registration_prompts ui in
      let kept : UiInv asked = menus-UiInv ui.running ui.at_menu asked.screen ui h in
      if_cases (λ (r : Bool × Ui Json). UiInv r.1)
        (blank a.username || blank a.email || blank a.password) _ _ (λ _. put-UiInv _ asked kept)
        (λ _.
          call-UiInv lib format_time net now (registering a.username a.email a.password)
            (put (row "Выполняется регистрация...") asked) tt (put-UiInv _ asked kept))

  handle_login_menu-UiInv :
      (a : Answers) (ui : Ui Json)
      → UiInv ui
      → UiInv (handle_login_menu lib format_time net now a ui).1
  unfolding handle_login_menu display_error
  handle_login_menu-UiInv a ui h =
      let P : Bool × Ui Json → Type 0 = λ r. UiInv r.1 in
      if_cases P (a.choice == "1") _ _ (λ _. perform_login-UiInv a ui h)
        (λ _.
          if_cases P (a.choice == "2") _ _ (λ _. perform_registration-UiInv a ui h)
            (λ _. if_cases P (a.choice == "3") _ _ (λ _. h) (λ _. put-UiInv _ ui h)))

  handle_main_menu-UiInv :
      (a : Answers) (ui : Ui Json)
      → UiInv ui
      → UiInv (handle_main_menu lib format_time net now a ui).1
  unfolding handle_main_menu ask display_error display_system_message
  handle_main_menu-UiInv a ui h =
      let P : Bool × Ui Json → Type 0 = λ r. UiInv r.1 in
      if_cases P (a.choice == "1") _ _ (λ _. put-UiInv _ ui h)
        (λ _.
          if_cases P (a.choice == "2") _ _
            (λ _.
              if_cases P (not (blank a.username)) _ _
                (λ names.
                  call-UiInv lib format_time net now (starting_chat a.username) _
                    (ground (arith, names)) (put-UiInv _ ui h))
                (λ _. put-UiInv _ ui h))
            (λ _.
              if_cases P (a.choice == "3") _ _
                (λ _. call-UiInv lib format_time net now logging_out ui tt h)
                (λ _. put-UiInv _ ui h)))

  handle_menu-UiInv :
      (s : ClientState) (a : Answers) (ui : Ui Json)
      → UiInv ui
      → UiInv (handle_menu lib format_time net now s a ui).1
  unfolding handle_menu
  handle_menu-UiInv awaiting_login a ui h = handle_login_menu-UiInv a ui h
  handle_menu-UiInv menu a ui h = handle_main_menu-UiInv a ui h
  handle_menu-UiInv _ a ui h = h

  pub end_turn-UiInv :
      (s : ClientState) (a : Answers) (ui : Ui Json)
      → UiInv ui
      → UiInv (end_turn lib format_time net now s a ui)
  unfolding end_turn
  end_turn-UiInv s a ui h =
      let done = handle_menu lib format_time net now s a ui in
      let kept = handle_menu-UiInv s a ui h in
      if_cases UiInv (not done.0) _ _ (λ _. menus-UiInv false none done.1.screen done.1 kept)
        (λ _. menus-UiInv done.1.running none done.1.screen done.1 kept)

  pub begin_turn-UiInv :
      (s : ClientState) (ui : Ui Json)
      → ui.client.machine.current_state ≡ s
      → UiInv ui
      → UiInv (begin_turn lib format_time net now s ui)
  unfolding begin_turn ask display_error display_login_menu display_main_menu
  begin_turn-UiInv disconnected ui e h =
      let tried = call format_time lib net now connecting ui in
      let kept = call-UiInv lib format_time net now connecting ui tt h in
      if_cases UiInv (not (try_connect net ui.client).0) _ _
        (λ _.
          menus-UiInv false tried.at_menu
            (display_error "Не удалось подключиться к серверу" tried).screen tried kept)
        (λ _. kept)
  begin_turn-UiInv awaiting_login ui e h = menus-UiInv ui.running (some awaiting_login) _ ui h
  begin_turn-UiInv menu ui e h = menus-UiInv ui.running (some menu) _ ui h
  begin_turn-UiInv chatting ui e h =
      if_cases UiInv (not ui.in_chat_mode) _ _
        (λ _. enter_chat_mode-UiInv ui.client.machine.chat_target ui (h.partner (rw e refl)) h)
        (λ _. h)
  begin_turn-UiInv _ ui e h = h
