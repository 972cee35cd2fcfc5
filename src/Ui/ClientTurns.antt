-- ===== src/Ui/ClientTurns.antt =====
-- The turns of client/client_ui.cpp, and what the functions of the client that they call keep of it.
use asynchronous_messenger.Base.{
  ℕ, String, Bool, true, not, ◌||◌, ◌==◌, string_eq, sym, subst, Option, some, if_cases, blank,
  ◌>>=◌,
}
use asynchronous_messenger.Json.{JsonLib}
use asynchronous_messenger.Client.{
  ClientState, disconnected, awaiting_login, menu, chatting, Client, Net,
}
use asynchronous_messenger.Client.Machine.{
  Action, act, connecting, registering, logging_in, starting_chat, logging_out, exiting_chat,
  try_connect,
}
use asynchronous_messenger.Ui.{Ui, row}
use asynchronous_messenger.Ui.Screen.{
  put, display_error, display_system_message, display_login_menu, display_main_menu,
  display_chat_interface, forget_status, call,
}
use asynchronous_messenger.Ui.Chat.{
  start_chat_thread, start_typing_cleanup_thread, stop_chat_thread, stop_typing_cleanup_thread,
  enter_chat_mode, exit_chat_mode, join_itself,
}
use asynchronous_messenger.Ui.Menus.{
  Answers, ask, login_prompts, registration_prompts, perform_login, perform_registration,
  handle_login_menu, handle_main_menu, begin_turn, handle_menu, end_turn,
}
use asynchronous_messenger.Ui.Calls.{call-client}
use asynchronous_messenger.Ui.Invariant.{IfRunning}

module _ {Json : Type 0} (lib : JsonLib Json) (format_time : ℕ → String) where
  module _ (Q : Client Json → Type 0) (net : Net) (now : ℕ)
      (kept : (a : Action) (c : Client Json) → Q c → Q (act lib net a c)) where
    abbrev P : Ui Json → Type 0
    P ui = Q ui.client

    pub call_keeps_client :
        (a : Action) (ui : Ui Json) → P ui → P (call format_time lib net now a ui)
    call_keeps_client a ui h =
        subst Q (sym (call-client lib format_time net now a ui)) (kept a ui.client h)

    login_menu_keeps :
        (a : Answers) (ui : Ui Json) → P ui → P (handle_login_menu lib format_time net now a ui).1
    unfolding handle_login_menu perform_login perform_registration login_prompts
        registration_prompts ask display_error
    login_menu_keeps a ui h =
        let R : Bool × Ui Json → Type 0 = λ r. P r.1 in
        if_cases R (a.choice == "1") _ _
          (λ _.
            if_cases R (blank a.username || blank a.password) _ _ (λ _. h)
              (λ _.
                call_keeps_client (logging_in a.username a.password)
                  (put (row "Выполняется вход...") (login_prompts ui)) h))
          (λ _.
            if_cases R (a.choice == "2") _ _
              (λ _.
                if_cases R (blank a.username || blank a.email || blank a.password) _ _ (λ _. h)
                  (λ _.
                    call_keeps_client (registering a.username a.email a.password)
                      (put (row "Выполняется регистрация...") (registration_prompts ui)) h))
              (λ _. if_cases R (a.choice == "3") _ _ (λ _. h) (λ _. h)))

    main_menu_keeps :
        (a : Answers) (ui : Ui Json) → P ui → P (handle_main_menu lib format_time net now a ui).1
    unfolding handle_main_menu ask display_error display_system_message
    main_menu_keeps a ui h =
        let R : Bool × Ui Json → Type 0 = λ r. P r.1 in
        if_cases R (a.choice == "1") _ _ (λ _. h)
          (λ _.
            if_cases R (a.choice == "2") _ _
              (λ _.
                if_cases R (not (blank a.username)) _ _
                  (λ _.
                    call_keeps_client (starting_chat a.username)
                      (ask "Введите имя пользователя для чата" ui) h)
                  (λ _. h))
              (λ _.
                if_cases R (a.choice == "3") _ _ (λ _. call_keeps_client logging_out ui h)
                  (λ _. h)))

    menu_keeps :
        (s : ClientState) (a : Answers) (ui : Ui Json)
        → P ui
        → P (handle_menu lib format_time net now s a ui).1
    unfolding handle_menu
    menu_keeps awaiting_login a ui h = login_menu_keeps a ui h
    menu_keeps menu a ui h = main_menu_keeps a ui h
    menu_keeps _ a ui h = h

    pub end_turn_keeps :
        (s : ClientState) (a : Answers) (ui : Ui Json)
        → P ui
        → P (end_turn lib format_time net now s a ui)
    unfolding end_turn
    end_turn_keeps s a ui h =
        if_cases P (not (handle_menu lib format_time net now s a ui).0) _ _
          (λ _. menu_keeps s a ui h) (λ _. menu_keeps s a ui h)

    enter_keeps : (target : String) (ui : Ui Json) → P ui → P (enter_chat_mode target ui)
    unfolding enter_chat_mode start_chat_thread start_typing_cleanup_thread display_chat_interface
    enter_keeps target ui h =
        let shown =
          display_chat_interface target
            (record ui { in_chat_mode = true; current_chat_target = target }) in
        if_cases P ui.in_chat_mode _ _ (λ _. h)
          (λ _.
            if_cases P (start_chat_thread shown).typing_cleanup_running _ _
              (λ _. if_cases P ui.chat_thread_running _ _ (λ _. h) (λ _. h))
              (λ _. if_cases P ui.chat_thread_running _ _ (λ _. h) (λ _. h)))

    pub begin_turn_keeps :
        (s : ClientState) (ui : Ui Json) → P ui → P (begin_turn lib format_time net now s ui)
    unfolding begin_turn ask display_error display_login_menu display_main_menu
    begin_turn_keeps disconnected ui h =
        if_cases P (not (try_connect net ui.client).0) _ _ (λ _. call_keeps_client connecting ui h)
          (λ _. call_keeps_client connecting ui h)
    begin_turn_keeps awaiting_login ui h = h
    begin_turn_keeps menu ui h = h
    begin_turn_keeps chatting ui h =
        if_cases P (not ui.in_chat_mode) _ _ (λ _. enter_keeps ui.client.machine.chat_target ui h)
          (λ _. h)
    begin_turn_keeps _ ui h = h

    pub exit_keeps :
        (ui : Ui Json) → P ui → IfRunning P (exit_chat_mode lib format_time net now join_itself ui)
    unfolding exit_chat_mode stop_chat_thread stop_typing_cleanup_thread
    exit_keeps ui h =
        if_cases (IfRunning P) (not ui.in_chat_mode) _ _ (λ _. h)
          (λ _.
            if_cases
              (λ (o : Option (Ui Json)). IfRunning P (
                o >>= λ stopped. some (
                  call format_time lib net now exiting_chat (
                    forget_status
                      (record (stop_typing_cleanup_thread stopped) { current_chat_target = "" })))))
              ui.chat_thread _ _ (λ _. tt) (λ _. call_keeps_client exiting_chat _ h))
