-- ===== src/Ui/Steps.antt =====
-- client/client_ui.cpp: the turns of the threads of a running client, as a step function on events.
-- `none` is std::terminate, which an exception calls that leaves a thread. The callbacks of the
-- io_context's thread run inside `arrived` and `broken`.
use Prim.Native.Char.{Char}
use asynchronous_messenger.Base.{
  ℕ, String, Bool, true, false, ◌&&◌, ◌≡◌, if◌then◌else◌, Option, none, some, List, [], ◌∷◌, ◌>>=◌,
}
use asynchronous_messenger.Json.{JsonLib}
use asynchronous_messenger.Client.{Net}
use asynchronous_messenger.Client.Machine.{read, lost}
use asynchronous_messenger.Ui.{Ui, new_ui}
use asynchronous_messenger.Ui.Screen.{clear_typing_status_after_delay, call}
use asynchronous_messenger.Ui.Chat.{begin_input, read_key, tick_timer}
use asynchronous_messenger.Ui.Menus.{Answers, begin_turn, end_turn}

-- A turn of the loop of run, its answers, a call of handleChatInput, a key, a round of its timer, a
-- round of the cleanup thread, bytes of the server, and the end of the connection.
pub data UiEvent : Type 0 where
  turn : UiEvent
  answered : Answers → UiEvent
  prompted : UiEvent
  key : Char → UiEvent
  timer : UiEvent
  cleanup : UiEvent
  arrived : List ℕ → UiEvent
  broken : UiEvent

abbrev pub is_none {ℓ} : {A : Type ℓ} → Option A → Bool
is_none none = true
is_none (some _) = false

module _ {Json : Type 0} (lib : JsonLib Json) (format_time : ℕ → String) where
  unfoldable pub step : Net → ℕ → UiEvent → Ui Json → Option (Ui Json)
  unfolding begin_turn end_turn begin_input read_key tick_timer clear_typing_status_after_delay call
  step net now turn ui =
      if ui.running && is_none ui.at_menu
      then some (begin_turn lib format_time net now ui.client.machine.current_state ui)
      else some ui
  step net now (answered a) ui = elim ui.at_menu [
    | none ↦ some ui
    | some s ↦ some (end_turn lib format_time net now s a ui)
  ]
  step net now prompted ui =
      if ui.chat_thread_running && ui.in_chat_mode && is_none ui.chat_input
      then some (begin_input lib format_time net now ui)
      else some ui
  step net now (key ch) ui = elim ui.chat_input [
    | none ↦ some ui
    | some i ↦ read_key lib format_time net now ch i ui
  ]
  step net now timer ui = elim ui.chat_input [
    | none ↦ some ui
    | some i ↦ some (tick_timer lib format_time net now i ui)
  ]
  step net now cleanup ui =
      if ui.typing_cleanup_running && ui.in_chat_mode
      then some (clear_typing_status_after_delay now ui)
      else some ui
  step net now (arrived chunk) ui = some (call format_time lib net now (read chunk) ui)
  step net now broken ui = some (call format_time lib net now lost ui)

  -- A list of turns.
  unfoldable pub run : Net → List (ℕ × UiEvent) → Ui Json → Option (Ui Json)
  unfolding step
  run net [] ui = some ui
  run net ((now, e) ∷ es) ui = step net now e ui >>= λ next. run net es next

-- The states of the user interface while the client runs.
pub data UiReach {Json : Type 0} (lib : JsonLib Json) (format_time : ℕ → String)
    : Ui Json → Type 0 where
  started : UiReach lib format_time new_ui
  stepped :
      {ui next : Ui Json} (net : Net) (now : ℕ) (e : UiEvent)
      → UiReach lib format_time ui
      → step lib format_time net now e ui ≡ some next
      → UiReach lib format_time next
