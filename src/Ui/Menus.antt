-- ===== src/Ui/Menus.antt =====
-- client/client_ui.cpp: handleUserInput and the menus. It reads the state of the client, shows a
-- menu and waits for answers, while other threads go on; the answers are one record.
use asynchronous_messenger.Base.{
  ℕ, String, Bool, true, false, not, ◌||◌, ◌==◌, string_eq, if◌then◌else◌, none, some, blank,
}
use asynchronous_messenger.Json.{JsonLib}
use asynchronous_messenger.Formatter.Lines.{format_prompt}
use asynchronous_messenger.Client.{ClientState, disconnected, awaiting_login, menu, chatting, Net}
use asynchronous_messenger.Client.Machine.{
  try_connect, connecting, registering, logging_in, starting_chat, logging_out,
}
use asynchronous_messenger.Ui.{Ui, row, piece}
use asynchronous_messenger.Ui.Screen.{
  put, display_error, display_system_message, display_login_menu, display_main_menu, call,
}
use asynchronous_messenger.Ui.Chat.{enter_chat_mode}

-- What getInput and getPassword return at the prompts of a turn.
pub record Answers : Type 0 where
  pub choice : String
  pub username : String
  pub email : String
  pub password : String

module _ {Json : Type 0} where
  -- ClientUI::getInput, as far as its prompt
  unfoldable pub ask : String → Ui Json → Ui Json
  ask prompt ui = put (piece (format_prompt prompt)) ui

  -- The prompts of performLogin; getPassword ends the line.
  unfoldable pub login_prompts : Ui Json → Ui Json
  unfolding ask
  login_prompts ui =
      let begun = put (row "=== ВХОД В СИСТЕМУ ===") (put (row "") ui) in
      put (row "") (ask "Пароль" (ask "Имя пользователя" begun))

  -- The prompts of performRegistration
  unfoldable pub registration_prompts : Ui Json → Ui Json
  unfolding ask
  registration_prompts ui =
      let begun = put (row "=== РЕГИСТРАЦИЯ ===") (put (row "") ui) in
      put (row "") (ask "Пароль" (ask "Email" (ask "Имя пользователя" begun)))

module _ {Json : Type 0} (lib : JsonLib Json) (format_time : ℕ → String) (net : Net) (now : ℕ) where
  -- ClientUI::performLogin
  unfoldable pub perform_login : Answers → Ui Json → Bool × Ui Json
  unfolding login_prompts call display_error
  perform_login a ui =
      let asked = login_prompts ui in
      let sent =
        call format_time lib net now (logging_in a.username a.password)
          (put (row "Выполняется вход...") asked) in
      if blank a.username || blank a.password
      then (true, display_error "Имя пользователя и пароль не могут быть пустыми" asked)
      else (true, sent)

  -- ClientUI::performRegistration
  unfoldable pub perform_registration : Answers → Ui Json → Bool × Ui Json
  unfolding registration_prompts call display_error
  perform_registration a ui =
      let asked = registration_prompts ui in
      let sent =
        call format_time lib net now (registering a.username a.email a.password)
          (put (row "Выполняется регистрация...") asked) in
      if blank a.username || blank a.email || blank a.password
      then (true, display_error "Все поля должны быть заполнены" asked)
      else (true, sent)

  -- ClientUI::handleLoginMenu
  unfoldable pub handle_login_menu : Answers → Ui Json → Bool × Ui Json
  unfolding perform_login perform_registration
  handle_login_menu a ui =
      if a.choice == "1"
      then perform_login a ui
      else if a.choice == "2"
      then perform_registration a ui
      else if a.choice == "3"
      then (false, ui)
      else (true, display_error "Неверный выбор. Попробуйте снова." ui)

  -- ClientUI::handleMainMenu
  unfoldable pub handle_main_menu : Answers → Ui Json → Bool × Ui Json
  unfolding ask call display_system_message
  handle_main_menu a ui =
      let asked = ask "Введите имя пользователя для чата" ui in
      if a.choice == "1"
      then (true, display_system_message "Список пользователей (функция в разработке)" ui)
      else if a.choice == "2"
      then (if not (blank a.username)
          then (true, call format_time lib net now (starting_chat a.username) asked)
          else (true, asked))
      else if a.choice == "3"
      then (false, call format_time lib net now logging_out ui)
      else (true, display_error "Неверный выбор. Попробуйте снова." ui)

  -- ClientUI::handleUserInput, as far as the prompt of a menu
  unfoldable pub begin_turn : ClientState → Ui Json → Ui Json
  unfolding ask call display_error display_login_menu display_main_menu enter_chat_mode
  begin_turn disconnected ui =
      let tried = call format_time lib net now connecting ui in
      if not (try_connect net ui.client).0
      then record (display_error "Не удалось подключиться к серверу" tried) { running = false }
      else tried
  begin_turn awaiting_login ui = record (ask "Ваш выбор" (display_login_menu ui)) {
    at_menu = some awaiting_login;
  }
  begin_turn menu ui = record (ask "Ваш выбор" (display_main_menu ui)) { at_menu = some menu }
  begin_turn chatting ui =
      if not ui.in_chat_mode then enter_chat_mode ui.client.machine.chat_target ui else ui
  begin_turn _ ui = ui

  unfoldable pub handle_menu : ClientState → Answers → Ui Json → Bool × Ui Json
  unfolding handle_login_menu handle_main_menu
  handle_menu awaiting_login a ui = handle_login_menu a ui
  handle_menu menu a ui = handle_main_menu a ui
  handle_menu _ a ui = (true, ui)

  -- ClientUI::handleUserInput, from the answers on
  unfoldable pub end_turn : ClientState → Answers → Ui Json → Ui Json
  unfolding handle_menu
  end_turn s a ui =
      let done = handle_menu s a ui in
      if not done.0
      then record done.1 { at_menu = none; running = false }
      else record done.1 { at_menu = none }
