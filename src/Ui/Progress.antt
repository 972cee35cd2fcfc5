-- ===== src/Ui/Progress.antt =====
-- The turns of the loop of ClientUI::run (client/client_ui.cpp).
use asynchronous_messenger.Base.{ℕ, String, true, false, ◌≡◌, ◌⊎◌, some}
use asynchronous_messenger.Json.{JsonLib}
use asynchronous_messenger.Client.{ClientState, awaiting_login, Client, Net}
use asynchronous_messenger.Ui.{Ui}

module _ {Json : Type 0} (lib : JsonLib Json) (format_time : ℕ → String) (net : Net) (now : ℕ) where
  -- The loop ends, the client has connected, a menu waits for an answer, or the chat is on.
  abbrev pub Progress : ClientState → Ui Json → Type 0
  Progress s v =
      (v.running ≡ false)
      ⊎ ((v.client.machine.current_state ≡ awaiting_login)
          ⊎ ((v.at_menu ≡ some s) ⊎ (v.in_chat_mode ≡ true)))
