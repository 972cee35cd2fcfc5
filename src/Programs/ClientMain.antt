-- ===== src/Programs/ClientMain.antt =====
-- main of client/client.cpp. The objects that it builds are a Ui and the Client behind it; the turns
-- of the threads while ClientUI::run runs, and until ClientUI is destroyed, are a list of events.
pub mod Returns
use asynchronous_messenger.Base.{
  ℕ, String, Bool, if◌then◌else◌, Option, none, some, List, [], ◌∷◌, append,
}
use asynchronous_messenger.Json.{JsonLib}
use asynchronous_messenger.Client.{Net}
use asynchronous_messenger.Ui.{Ui, new_ui}
use asynchronous_messenger.Ui.Chat.{shutdown}
use asynchronous_messenger.Ui.Steps.{UiEvent, run}

-- What main has come to: it has returned a status and has written lines to std::cout and std::cerr,
-- and has left the objects as they were destroyed; or ClientUI::run goes on; or std::terminate was
-- called on a thread.
pub data ClientProgram (Json : Type 0) : Type 0 where
  returned : ℕ → List String → List String → Option (Ui Json) → ClientProgram Json
  running_on : Ui Json → ClientProgram Json
  terminated : ClientProgram Json

-- The lines of main itself.
abbrev pub all_lines : List String
all_lines =
    "Запуск Asynchronous Messenger Client..." ∷ "Завершение работы клиента..."
    ∷ "Клиент завершил работу." ∷ []

module _ {Json : Type 0} (lib : JsonLib Json) (format_time : ℕ → String) (net : Net) where
  -- From the end of run: the thread of the io_context is joined, and ~ClientUI calls shutdown.
  unfoldable pub finish_main : ℕ → Ui Json → ClientProgram Json
  unfolding shutdown
  finish_main now ui =
      if ui.running then running_on ui else elim (shutdown lib format_time net now ui) [
        | none ↦ terminated
        | some left ↦ returned 0 all_lines [] (some left)
      ]

  -- main; `refused` is what the constructor of std::locale throws, if the locale is not installed
  unfoldable pub client_main : Option String → List (ℕ × UiEvent) → ℕ → ClientProgram Json
  unfolding finish_main run
  client_main refused events now = elim refused [
    | some what ↦ returned 1 [] (append "Ошибка клиента: " what ∷ []) none
    | none ↦ elim (run lib format_time net events new_ui) [
      | none ↦ terminated
      | some ui ↦ finish_main now ui
    ]
  ]
