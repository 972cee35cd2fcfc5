-- ===== src/Ui/Chat.antt =====
-- client/client_ui.cpp: the chat mode, its threads, and handleChatInput as it is compiled for Unix.
-- A byte that is read is the character of its number; `char` is signed there, so that the bytes
-- from 128 on pass none of the tests, as their characters here. The typing_timer that
-- handleChatInput detaches reads its locals after it has returned, which is undefined; here it runs
-- only as long as they live.
use Prim.Native.Char.{Char, code}
use asynchronous_messenger.Base.{
  ℕ, ◌-◌, String, Bool, true, false, not, ◌&&◌, ◌||◌, ◌==◌, string_eq, nat_eq, if◌then◌else◌,
  Option, none, some, blank, push_back, pop_back, ltb, leb, ◌>>=◌,
}
use asynchronous_messenger.Json.{JsonLib}
use asynchronous_messenger.Client.{Net}
use asynchronous_messenger.Client.Machine.{writing, typing_status, exiting_chat, logging_out}
use asynchronous_messenger.Ui.{Ui, ChatInput, row, piece, rubbed_out}
use asynchronous_messenger.Ui.Screen.{
  put, display_chat_interface, forget_status, display_message, call,
}

-- ch == '\n' || ch == '\r'
abbrev pub is_enter : Char → Bool
is_enter ch = code ch == 10 || code ch == 13

-- ch == 127 || ch == '\b'
abbrev pub is_backspace : Char → Bool
is_backspace ch = code ch == 127 || code ch == 8

-- ch >= 32 && ch <= 126
abbrev pub is_printable : Char → Bool
is_printable ch = leb 32 (code ch) && leb (code ch) 126

module _ {Json : Type 0} where
  -- ClientUI::startChatThread
  unfoldable pub start_chat_thread : Ui Json → Ui Json
  start_chat_thread ui =
      if ui.chat_thread_running
      then ui
      else record ui { chat_thread_running = true; chat_thread = true }

  -- ClientUI::stopChatThread; `join` is chat_thread_->join(): what the thread still does, or the
  -- exception of a thread that joins itself
  unfoldable pub stop_chat_thread : (Ui Json → Option (Ui Json)) → Ui Json → Option (Ui Json)
  stop_chat_thread join ui =
      let stopped = record ui { chat_thread_running = false } in
      if ui.chat_thread
      then (join stopped >>= λ joined. some (record joined { chat_thread = false }))
      else some stopped

  abbrev pub join_itself : Ui Json → Option (Ui Json)
  join_itself ui = none

  -- ClientUI::startTypingCleanupThread
  unfoldable pub start_typing_cleanup_thread : Ui Json → Ui Json
  start_typing_cleanup_thread ui =
      if ui.typing_cleanup_running then ui else record ui { typing_cleanup_running = true }

  -- ClientUI::stopTypingCleanupThread
  unfoldable pub stop_typing_cleanup_thread : Ui Json → Ui Json
  stop_typing_cleanup_thread ui = record ui { typing_cleanup_running = false }

  -- ClientUI::enterChatMode
  unfoldable pub enter_chat_mode : String → Ui Json → Ui Json
  unfolding start_chat_thread start_typing_cleanup_thread display_chat_interface
  enter_chat_mode target_username ui =
      if ui.in_chat_mode
      then ui
      else start_typing_cleanup_thread (
          start_chat_thread (
            display_chat_interface target_username
              (record ui { in_chat_mode = true; current_chat_target = target_username })))

  abbrev pub keep_input : ChatInput → Ui Json → Ui Json
  keep_input i ui = record ui { chat_input = some i }

module _ {Json : Type 0} (lib : JsonLib Json) (format_time : ℕ → String) (net : Net) (now : ℕ) where
  -- ClientUI::exitChatMode
  unfoldable pub exit_chat_mode : (Ui Json → Option (Ui Json)) → Ui Json → Option (Ui Json)
  unfolding stop_chat_thread stop_typing_cleanup_thread call
  exit_chat_mode join ui =
      if not ui.in_chat_mode
      then some ui
      else stop_chat_thread join (record ui { in_chat_mode = false }) >>= λ stopped. some (
          call format_time lib net now exiting_chat (
            forget_status
              (record (stop_typing_cleanup_thread stopped) { current_chat_target = "" })))

  -- ClientUI::handleChatInput, from its start to its loop
  unfoldable pub begin_input : Ui Json → Ui Json
  begin_input ui =
      keep_input (record { input = ""; is_typing = false; last_keypress = now })
        (put (piece "> ") ui)

  -- ClientUI::handleChatInput, from the end of its loop
  unfoldable pub finish_input : ChatInput → Ui Json → Option (Ui Json)
  unfolding exit_chat_mode display_message
  finish_input i ui =
      let ended = record ui { chat_input = none } in
      let told =
        if i.is_typing then call format_time lib net now (typing_status false) ended else ended in
      let over = put (row "") told in
      let sent = call format_time lib net now (writing i.input) over in
      if i.input == "/exit"
      then exit_chat_mode join_itself over
      else if not (blank i.input)
      then some
          (display_message format_time sent.client.machine.current_username i.input net.time sent)
      else some over

  -- The loop of ClientUI::handleChatInput, for a key that is not Enter
  unfoldable pub press_key : Char → ChatInput → Ui Json → Ui Json
  press_key ch i ui =
      let grown = push_back i.input ch in
      let shown = put (piece (push_back "" ch)) ui in
      if is_backspace ch
      then (if not (blank i.input)
          then keep_input (record i { input = pop_back i.input; last_keypress = now })
              (put rubbed_out ui)
          else keep_input (record i { last_keypress = now }) ui)
      else if is_printable ch
      then (if not i.is_typing && not (blank grown)
          then keep_input (record { input = grown; is_typing = true; last_keypress = now })
              (call format_time lib net now (typing_status true) shown)
          else keep_input (record i { input = grown; last_keypress = now }) shown)
      else keep_input (record i { last_keypress = now }) ui

  -- One round of the loop of ClientUI::handleChatInput in which a byte was read
  unfoldable pub read_key : Char → ChatInput → Ui Json → Option (Ui Json)
  unfolding finish_input press_key
  read_key ch i ui = if is_enter ch then finish_input i ui else some (press_key ch i ui)

  -- One round of typing_timer in ClientUI::handleChatInput
  unfoldable pub tick_timer : ChatInput → Ui Json → Ui Json
  tick_timer i ui =
      if ltb 1000 (now - i.last_keypress) && i.is_typing
      then call format_time lib net now (typing_status false)
          (keep_input (record i { is_typing = false }) ui)
      else ui

  -- What the chat thread still does when chat_thread_running_ is false.
  unfoldable pub rest_of_chat_thread : Ui Json → Option (Ui Json)
  unfolding finish_input
  rest_of_chat_thread ui = elim ui.chat_input [ none ↦ some ui | some i ↦ finish_input i ui ]

  -- ClientUI::shutdown, on the thread of main, after run has returned
  unfoldable pub shutdown : Ui Json → Option (Ui Json)
  unfolding stop_chat_thread rest_of_chat_thread stop_typing_cleanup_thread call
  shutdown ui = stop_chat_thread rest_of_chat_thread (record ui { running = false }) >>= λ stopped.
      some (call format_time lib net now logging_out (stop_typing_cleanup_thread stopped))
