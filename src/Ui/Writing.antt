-- ===== src/Ui/Writing.antt =====
-- The calls of client/client_ui.cpp that write to an open connection in a chat.
use asynchronous_messenger.Base.{
  ℕ, ◌-◌, String, Bool, true, not, ◌≡◌, refl, ap, ◌∙◌, arith, List, [], ◌∷◌, ◌++◌, some, length,
  take, if_true, if_false,
}
use asynchronous_messenger.Json.{JsonLib}
use asynchronous_messenger.Wire.{newline}
use asynchronous_messenger.Client.{Client, Net, Notice}
use asynchronous_messenger.Client.Connection.{send_raw, send_request}
use asynchronous_messenger.Client.Machine.{
  Action, act, writing, typing_status, is_chatting, send_message, send_typing, chat_request,
  typing_request,
}
use asynchronous_messenger.Ui.{Ui}
use asynchronous_messenger.Ui.Screen.{call, hear_all}

-- A client in a chat, with an open connection.
pub record CanWrite {Json : Type 0} (c : Client Json) : Type 0 where
  pub in_chat : is_chatting c.machine.current_state ≡ true
  pub open_yet : c.connection.connected ≡ true

module _ {Json : Type 0} where
  -- The client when a message and its text have been written.
  abbrev pub wrote : List ℕ → Json → Client Json → Client Json
  wrote raw m c = record c {
    connection = record c.connection {
      sent = c.connection.sent ++ m ∷ [];
      wire = c.connection.wire ++ (raw ++ newline ∷ []);
    };
  }

  pub wrote-CanWrite :
      (raw : List ℕ) (m : Json) (c : Client Json) → CanWrite c → CanWrite (wrote raw m c)
  wrote-CanWrite raw m c h = record { in_chat = h.in_chat; open_yet = h.open_yet }

module _ {Json : Type 0} (lib : JsonLib Json) (net : Net) (writes : net.writes ≡ true) where
  request_written :
      (m : Json) (raw : List ℕ) (c : Client Json)
      → lib.dump m ≡ some raw
      → CanWrite c
      → send_request lib net m c ≡ wrote raw m c
  unfolding send_request send_raw
  request_written m raw c dump h =
      rw (dump, send_request)
        (if_false (not c.connection.connected) _ _ (ap not h.open_yet)
          ∙ if_true net.writes _ _ writes)

  typing_written :
      (b : Bool) (raw : List ℕ) (c : Client Json)
      → lib.dump (typing_request lib c.machine.chat_target b) ≡ some raw
      → CanWrite c
      → act lib net (typing_status b) c ≡ wrote raw (typing_request lib c.machine.chat_target b) c
  unfolding act send_typing
  typing_written b raw c dump h =
      if_false (not (is_chatting c.machine.current_state)) _ _ (ap not h.in_chat)
      ∙ request_written _ raw c dump h

  message_written :
      (content : String) (raw : List ℕ) (c : Client Json)
      → lib.dump (chat_request lib c.machine.chat_target content) ≡ some raw
      → CanWrite c
      → act lib net (writing content) c
        ≡ wrote raw (chat_request lib c.machine.chat_target content) c
  unfolding act send_message
  message_written content raw c dump h =
      if_false (not (is_chatting c.machine.current_state)) _ _ (ap not h.in_chat)
      ∙ request_written _ raw c dump h

  module _ (format_time : ℕ → String) (now : ℕ) where
    -- A call that tells the user interface nothing.
    quiet_call :
        (a : Action) (ui : Ui Json) (c : Client Json)
        → act lib net a ui.client ≡ c
        → c.notices ≡ ui.client.notices
        → call format_time lib net now a ui ≡ record ui { client = c }
    unfolding call hear_all
    quiet_call a ui c e quiet =
        let told : ℕ → Client Json → Ui Json =
          λ n d. hear_all format_time now (take n d.notices) (record ui { client = d }) in
        let none_left : length ui.client.notices - length ui.client.notices ≡ 0 = omega arith in
        ap (λ (d : Client Json). told (length d.notices - length ui.client.notices) d) e
        ∙ ap (λ (ns : List Notice). told (length ns - length ui.client.notices) c) quiet
        ∙ ap (λ n. told n c) none_left

    -- Typing status and messages are written at once.
    pub typing_call :
        (b : Bool) (raw : List ℕ) (ui : Ui Json)
        → lib.dump (typing_request lib ui.client.machine.chat_target b) ≡ some raw
        → CanWrite ui.client
        → call format_time lib net now (typing_status b) ui ≡ record ui {
          client = wrote raw (typing_request lib ui.client.machine.chat_target b) ui.client;
        }
    typing_call b raw ui dump h =
        quiet_call (typing_status b) ui _ (typing_written b raw ui.client dump h) refl

    pub message_call :
        (content : String) (raw : List ℕ) (ui : Ui Json)
        → lib.dump (chat_request lib ui.client.machine.chat_target content) ≡ some raw
        → CanWrite ui.client
        → call format_time lib net now (writing content) ui ≡ record ui {
          client = wrote raw (chat_request lib ui.client.machine.chat_target content) ui.client;
        }
    message_call content raw ui dump h =
        quiet_call (writing content) ui _ (message_written content raw ui.client dump h) refl
