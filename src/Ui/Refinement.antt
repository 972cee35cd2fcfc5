-- ===== src/Ui/Refinement.antt =====
-- ClientUI (client/client_ui.cpp) and the public functions of the client's objects.
use Prim.Native.Char.{Char}
use asynchronous_messenger.Base.{ℕ, String, string_eq}
use asynchronous_messenger.Json.{JsonLib}
use asynchronous_messenger.Client.{Client, Net}
use asynchronous_messenger.Client.Machine.{Action, act}
use asynchronous_messenger.Ui.{Ui}

module _ {Json : Type 0} (lib : JsonLib Json) (format_time : ℕ → String) where
  module _ (Q : Client Json → Type 0) (net : Net) (now : ℕ)
      (kept : (a : Action) (c : Client Json) → Q c → Q (act lib net a c)) where
    abbrev P : Ui Json → Type 0
    P ui = Q ui.client
