-- ===== src/Ui/Arrival.antt =====
-- A line of the server in ClientConnection::do_read (client/client_connection.cpp), as far as the
-- callbacks of client/client_ui.cpp.
use asynchronous_messenger.Base.{
  ℕ, ◌-◌, suc, String, true, ◌&&◌, ◌==◌, string_eq, ◌≡◌, ap, ◌∙◌, arith, List, [], ◌∷◌, ◌++◌,
  Option, none, some, length, take, is_empty, if◌then◌else◌, if_true, if_false,
}
use asynchronous_messenger.Json.{JsonLib}
use asynchronous_messenger.Wire.{newline, receive, handle_nonempty}
use asynchronous_messenger.Wire.Frames.{receive-lines}
use asynchronous_messenger.Formatter.Lines.{format_chat_message}
use asynchronous_messenger.Client.{Client, Net, Notice, chat, notify}
use asynchronous_messenger.Client.Receiver.{handle_incoming_message}
use asynchronous_messenger.Client.Connection.{handle_line, read_some}
use asynchronous_messenger.Client.Machine.{act}
use asynchronous_messenger.Client.Hearing.{with_buffer}
use asynchronous_messenger.Client.Transport.{RoundTrips}
use asynchronous_messenger.Ui.{Ui, row}
use asynchronous_messenger.Ui.Screen.{call, hear, hear_all, display_message}
use asynchronous_messenger.Ui.Steps.{arrived, step}

-- A client that reads and listens, and has no part of a line in its buffer.
pub record CanHear {Json : Type 0} (c : Client Json) : Type 0 where
  pub receiving : c.connection.receiving ≡ true
  pub hearing : c.connection.message_callback ≡ true
  pub quiet : c.connection.message_buffer ≡ []

module _ {Json : Type 0} (lib : JsonLib Json) (laws : RoundTrips lib) (net : Net) where
  line_read :
      (m : Json) (raw : List ℕ) (c : Client Json)
      → lib.dump m ≡ some raw
      → CanHear c
      → handle_nonempty (handle_line lib net) raw c ≡ handle_incoming_message lib net m c
  unfolding handle_nonempty handle_line
  line_read m raw c dump h =
      if_false (is_empty raw) _ _ (laws.filled m raw dump)
      ∙ rw (laws.parses m raw dump, handle_line)
          (if_true c.connection.message_callback _ _ h.hearing)

  read_line :
      (m : Json) (n : Notice) (raw : List ℕ) (c : Client Json)
      → lib.dump m ≡ some raw
      → handle_incoming_message lib net m c ≡ notify n c
      → CanHear c
      → read_some lib net (raw ++ newline ∷ []) c ≡ with_buffer [] (notify n c)
  unfolding read_some
  read_line m n raw c dump told h =
      let settle : Option (List ℕ × Client Json) → Client Json =
        λ o. elim o [ none ↦ c | some (rest, d) ↦ with_buffer rest d ] in
      if_true c.connection.receiving _ _ h.receiving
      ∙ ap (λ b. settle (receive (handle_line lib net) b (raw ++ newline ∷ []) c)) h.quiet
      ∙ ap settle (receive-lines (handle_line lib net) (raw ∷ []) c (laws.one_line m raw dump, tt))
      ∙ ap (with_buffer []) (line_read m raw c dump h ∙ told)

  module _ (format_time : ℕ → String) where
    -- What is handed to the user interface is heard.
    pub line_heard :
        (now : ℕ) (m : Json) (n : Notice) (raw : List ℕ) (ui : Ui Json)
        → lib.dump m ≡ some raw
        → handle_incoming_message lib net m ui.client ≡ notify n ui.client
        → CanHear ui.client
        → step lib format_time net now (arrived (raw ++ newline ∷ [])) ui
          ≡ some
              (hear format_time now n (record ui { client = with_buffer [] (notify n ui.client) }))
    unfolding step call act hear_all
    line_heard now m n raw ui dump told h =
        let shows : ℕ → Client Json → Ui Json =
          λ k d. hear_all format_time now (take k d.notices) (record ui { client = d }) in
        let d = with_buffer [] (notify n ui.client) in
        let one : suc (length ui.client.notices) - length ui.client.notices ≡ 1 = omega arith in
        ap some (
          ap (λ (e : Client Json). shows (length e.notices - length ui.client.notices) e)
            (read_line m n raw ui.client dump told h)
          ∙ ap (λ k. shows k d) one)

    -- A chat message is shown in the chat with its sender only.
    pub chat_line_shown :
        (now t : ℕ) (from content : String) (m : Json) (raw : List ℕ) (ui : Ui Json)
        → lib.dump m ≡ some raw
        → handle_incoming_message lib net m ui.client ≡ notify (chat from content t) ui.client
        → CanHear ui.client
        → (v : Ui Json) × (step lib format_time net now (arrived (raw ++ newline ∷ [])) ui ≡ some v)
          × (v.screen ≡ (
              if ui.in_chat_mode && from == ui.current_chat_target
              then row (format_chat_message format_time from content t) ∷ ui.screen
              else ui.screen))
    unfolding hear display_message
    chat_line_shown now t from content m raw ui dump told h =
        let d = record ui { client = with_buffer [] (notify (chat from content t) ui.client) } in
        (
          hear format_time now (chat from content t) d,
          line_heard now m (chat from content t) raw ui dump told h,
          ground arith,
        )
