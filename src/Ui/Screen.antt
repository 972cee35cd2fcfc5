-- ===== src/Ui/Screen.antt =====
-- client/client_ui.cpp: what ClientUI displays, and its callbacks, which the receiver calls.
use asynchronous_messenger.Base.{
  ℕ, ◌+◌, ◌-◌, ◌/◌, String, Bool, true, not, ◌&&◌, List, [], ◌∷◌, ◌==◌, string_eq, if◌then◌else◌,
  append, blank, byte_length, length, take, leb,
}
use asynchronous_messenger.Json.{JsonLib}
use asynchronous_messenger.Formatter.Lines.{
  format_chat_message, format_system_message, format_typing_status, format_error, format_success,
}
use asynchronous_messenger.Client.{Client, Net, Notice, chat, typing, failure}
use asynchronous_messenger.Client.Machine.{Action, act}
use asynchronous_messenger.Ui.{Ui, Shown, row, piece, separator, title, wiped, cleared}

module _ {Json : Type 0} where
  -- std::cout << …
  abbrev pub put : Shown → Ui Json → Ui Json
  put s ui = record ui { screen = s ∷ ui.screen }

  -- ClientUI::displayError
  unfoldable pub display_error : String → Ui Json → Ui Json
  display_error error ui = put (row (format_error error)) ui

  -- ClientUI::displaySystemMessage
  unfoldable pub display_system_message : String → Ui Json → Ui Json
  display_system_message message ui = put (row (format_system_message message)) ui

  -- ClientUI::displaySuccess
  unfoldable pub display_success : String → Ui Json → Ui Json
  display_success message ui = put (row (format_success message)) ui

  -- ClientUI::displayHeader
  unfoldable pub display_header : String → Ui Json → Ui Json
  display_header name ui = record ui {
    screen = separator "=" 60 ∷ title name 60 ∷ separator "=" 60 ∷ ui.screen;
  }

  -- ClientUI::displayLoginMenu
  unfoldable pub display_login_menu : Ui Json → Ui Json
  display_login_menu ui = record ui {
    screen =
        separator "-" 40
        ∷ row "[3] Выйти"
        ∷ row "[2] Зарегистрироваться"
        ∷ row "[1] Войти в аккаунт"
        ∷ row "Выберите действие:"
        ∷ separator "-" 40
        ∷ row ""
        ∷ ui.screen;
  }

  -- ClientUI::displayMainMenu
  unfoldable pub display_main_menu : Ui Json → Ui Json
  display_main_menu ui = record ui {
    screen =
        separator "-" 50
        ∷ row "[3] Выйти из аккаунта"
        ∷ row "[2] Начать чат"
        ∷ row "[1] Посмотреть список пользователей"
        ∷ row (append "Добро пожаловать, " (append ui.client.machine.current_username "!"))
        ∷ separator "-" 50
        ∷ row ""
        ∷ ui.screen;
  }

  -- ClientUI::displayChatInterface
  unfoldable pub display_chat_interface : String → Ui Json → Ui Json
  display_chat_interface target_username ui = record ui {
    screen =
        separator "-" 60
        ∷ row "Введите сообщение или /exit для выхода из чата"
        ∷ separator "=" 60
        ∷ title (append "ЧАТ С " target_username) 60
        ∷ separator "=" 60
        ∷ cleared
        ∷ ui.screen;
  }

  abbrev pub wipe_status : Ui Json → Ui Json
  wipe_status ui = put (wiped (byte_length ui.current_typing_status + 10)) ui

  abbrev pub forget_status : Ui Json → Ui Json
  forget_status ui = record ui { current_typing_status = ""; current_typing_user = "" }

  -- ClientUI::displayTypingStatus
  unfoldable pub display_typing_status : ℕ → String → Bool → Ui Json → Ui Json
  unfolding format_typing_status
  display_typing_status now username is_typing ui =
      if is_typing
      then (let before = if not (blank ui.current_typing_status) then wipe_status ui else ui in
          let status = format_typing_status username true in
          put (piece status) (record before {
            current_typing_status = status;
            current_typing_user = username;
            last_typing_time = now;
          }))
      else if not (blank ui.current_typing_status) && ui.current_typing_user == username
      then put (piece "> ") (forget_status (wipe_status ui))
      else ui

  -- ClientUI::clearTypingStatusAfterDelay
  unfoldable pub clear_typing_status_after_delay : ℕ → Ui Json → Ui Json
  clear_typing_status_after_delay now ui =
      if not (blank ui.current_typing_status)
        && not (blank ui.current_typing_user)
        && leb 3 ((now - ui.last_typing_time) / 1000)
      then put (piece "> ") (forget_status (wipe_status ui))
      else ui

  -- The notices that came in a call.
  abbrev pub fresh_notices : Client Json → Client Json → List Notice
  fresh_notices before after = take (length after.notices - length before.notices) after.notices

module _ {Json : Type 0} (format_time : ℕ → String) where
  -- ClientUI::displayMessage
  unfoldable pub display_message : String → String → ℕ → Ui Json → Ui Json
  unfolding format_chat_message
  display_message sender content timestamp ui =
      put (row (format_chat_message format_time sender content timestamp)) ui

  -- The callbacks of ClientUI::setupMessageCallbacks
  unfoldable pub hear : ℕ → Notice → Ui Json → Ui Json
  unfolding display_message display_typing_status display_error
  hear now (chat from content timestamp) ui =
      if ui.in_chat_mode && from == ui.current_chat_target
      then display_message from content timestamp ui
      else ui
  hear now (typing username is_typing) ui =
      if ui.in_chat_mode && username == ui.current_chat_target
      then display_typing_status now username is_typing ui
      else ui
  hear now (failure error) ui = display_error error ui

  unfoldable pub hear_all : ℕ → List Notice → Ui Json → Ui Json
  unfolding hear
  hear_all now [] ui = ui
  hear_all now (n ∷ ns) ui = hear now n (hear_all now ns ui)

  -- A call of the client's objects, with the callbacks that are called in it.
  unfoldable pub call : JsonLib Json → Net → ℕ → Action → Ui Json → Ui Json
  unfolding act hear_all
  call lib net now a ui =
      let after = act lib net a ui.client in
      hear_all now (fresh_notices ui.client after) (record ui { client = after })
