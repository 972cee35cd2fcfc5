-- ===== src/Ui/Shutdown.antt =====
-- ClientUI::shutdown of client/client_ui.cpp.
use asynchronous_messenger.Base.{
  ℕ, String, false, ◌==◌, string_eq, ◌≡◌, refl, ap, ◌∙◌, arith, Option, none, some, if_true,
  if_false, inl, inr, Option-cases, Bool-cases, ◌>>=◌,
}
use asynchronous_messenger.Json.{JsonLib}
use asynchronous_messenger.Client.{Client, disconnected, Net, transition_to_state}
use asynchronous_messenger.Client.Connection.{disconnect}
use asynchronous_messenger.Client.Receiver.{stop_listening}
use asynchronous_messenger.Client.Machine.{act, logging_out, logout}
use asynchronous_messenger.Ui.{Ui, ChatInput}
use asynchronous_messenger.Ui.Screen.{call}
use asynchronous_messenger.Ui.Chat.{
  finish_input, stop_chat_thread, stop_typing_cleanup_thread, rest_of_chat_thread, shutdown,
}
use asynchronous_messenger.Ui.Steps.{UiReach}
use asynchronous_messenger.Ui.Calls.{Frame, frame, call-frame, call-client}
use asynchronous_messenger.Ui.Invariant.{UiInv}
use asynchronous_messenger.Ui.Exit.{ended}
use asynchronous_messenger.Ui.Reach.{UiReach-UiInv}
use asynchronous_messenger.Ui.Ends.{finish_input-frame}

module _ {Json : Type 0} (lib : JsonLib Json) (format_time : ℕ → String) (net : Net) (now : ℕ) where
  -- What the chat thread still does.
  rest-frame :
      (ui : Ui Json)
      → ((i : ChatInput) → ui.chat_input ≡ some i → (i.input == "/exit") ≡ false)
      → (v : Ui Json) × (rest_of_chat_thread lib format_time net now ui ≡ some v)
        × (frame v ≡ frame (ended lib format_time net now ui))
  unfolding rest_of_chat_thread
  rest-frame ui other = elim (Option-cases ui.chat_input) [
    | inl e ↦
        let rest : Option ChatInput → Option (Ui Json) =
          λ o. elim o [ none ↦ some ui | some i ↦ finish_input lib format_time net now i ui ] in
        (ui, ap rest e, ap (λ o. record (frame ui) { chat_input = o }) e)
    | inr (i, e) ↦
        let (v, goes_on, same) = finish_input-frame lib format_time net now i ui (other i e) in
        let rest : Option ChatInput → Option (Ui Json) =
          λ o. elim o [ none ↦ some ui | some j ↦ finish_input lib format_time net now j ui ] in
        (v, ap rest e ∙ goes_on, same)
  ]

  logged_out :
      (c : Client Json)
      → ((act lib net logging_out c).machine.current_state ≡ disconnected)
        × ((act lib net logging_out c).connection.connected ≡ false)
  unfolding act logout transition_to_state disconnect stop_listening
  logged_out c = (refl, ground arith)

  -- Nothing runs any more, and the client has disconnected.
  abbrev pub IsOver : Ui Json → Type 0
  IsOver v =
      (v.running ≡ false)
      × (v.chat_thread ≡ false)
      × (v.chat_thread_running ≡ false)
      × (v.typing_cleanup_running ≡ false)
      × (v.chat_input ≡ none)
      × (v.client.machine.current_state ≡ disconnected)
      × (v.client.connection.connected ≡ false)

  logout-IsOver :
      (ui : Ui Json)
      → ui.running ≡ false
      → ui.chat_thread ≡ false
      → ui.chat_thread_running ≡ false
      → ui.typing_cleanup_running ≡ false
      → ui.chat_input ≡ none
      → IsOver (call format_time lib net now logging_out ui)
  logout-IsOver ui running thread thread_running cleaning input =
      let framed = call-frame lib format_time net now logging_out ui in
      let client = call-client lib format_time net now logging_out ui in
      (
        ap (λ (f : Frame). f.running) framed ∙ running,
        ap (λ (f : Frame). f.chat_thread) framed ∙ thread,
        ap (λ (f : Frame). f.chat_thread_running) framed ∙ thread_running,
        ap (λ (f : Frame). f.typing_cleanup_running) framed ∙ cleaning,
        ap (λ (f : Frame). f.chat_input) framed ∙ input,
        ap (λ (c : Client Json). c.machine.current_state) client ∙ (logged_out ui.client).0,
        ap (λ (c : Client Json). c.connection.connected) client ∙ (logged_out ui.client).1,
      )

  -- The join of the chat thread, if there is one, and what is left when it is over.
  stop_chat_thread-rest :
      (ui : Ui Json)
      → UiInv ui
      → ((i : ChatInput) → ui.chat_input ≡ some i → (i.input == "/exit") ≡ false)
      → (v : Ui Json) × (stop_chat_thread
            (rest_of_chat_thread lib format_time net now)
            (record ui { running = false })
          ≡ some v)
        × (v.running ≡ false)
        × (v.chat_thread ≡ false)
        × (v.chat_thread_running ≡ false)
        × (v.chat_input ≡ none)
  unfolding stop_chat_thread
  stop_chat_thread-rest ui h other =
      let stopped = record ui { running = false; chat_thread_running = false } in
      let reset : Ui Json → Option (Ui Json) =
        λ joined. some (record joined { chat_thread = false }) in
      let (v, goes_on, same) = rest-frame stopped other in
      elim (Bool-cases ui.chat_thread) [
        | inl on ↦ (
          record v { chat_thread = false },
          if_true ui.chat_thread _ _ on ∙ ap (λ (o : Option (Ui Json)). o >>= reset) goes_on,
          ap (λ (f : Frame). f.running) same,
          refl,
          ap (λ (f : Frame). f.chat_thread_running) same,
          ap (λ (f : Frame). f.chat_input) same,
        )
        | inr off ↦ (
          stopped,
          if_false ui.chat_thread _ _ off,
          refl,
          off,
          refl,
          elim (Option-cases ui.chat_input) [
            | inl e ↦ e
            | inr (i, e) ↦ absurd (ground (arith, h.framed.thread, (h.framed.reading i e).0, off))
          ],
        )
      ]

  -- From every state that the user interface comes to while it runs, if no line /exit stands in
  -- the chat, shutdown returns: the loop of the menus, the chat thread and the cleanup thread
  -- are over, no line is being read, and the client is disconnected.
  pub shutdown_stops :
      (ui : Ui Json)
      → UiReach lib format_time ui
      → ((i : ChatInput) → ui.chat_input ≡ some i → (i.input == "/exit") ≡ false)
      → (v : Ui Json) × (shutdown lib format_time net now ui ≡ some v) × IsOver v
  unfolding shutdown stop_typing_cleanup_thread
  shutdown_stops ui r other =
      let inv = UiReach-UiInv lib format_time ui r in
      let (v, goes_on, running, thread, thread_running, input) =
        stop_chat_thread-rest ui inv other in
      let calm = record v { typing_cleanup_running = false } in
      (
        call format_time lib net now logging_out calm,
        ap
            (λ (o : Option (Ui Json)). o >>= λ stopped.
              some (call format_time lib net now logging_out (stop_typing_cleanup_thread stopped)))
            goes_on,
        logout-IsOver calm running thread thread_running refl input,
      )
