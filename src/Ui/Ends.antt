-- ===== src/Ui/Ends.antt =====
-- How client/client_ui.cpp ends on the chat thread: std::terminate.
use Prim.Native.Char.{Char}
use asynchronous_messenger.Base.{
  ℕ, String, true, false, not, ◌&&◌, ◌==◌, string_eq, ◌≡◌, ◌↔◌, refl, ◌∙◌, arith, Option, none,
  some, if_cases, blank, inl, inr, Option-cases, Bool-cases,
}
use asynchronous_messenger.Json.{JsonLib}
use asynchronous_messenger.Client.{Net}
use asynchronous_messenger.Client.Machine.{writing}
use asynchronous_messenger.Ui.{Ui, ChatInput, row}
use asynchronous_messenger.Ui.Screen.{put, display_message, call}
use asynchronous_messenger.Ui.Chat.{is_enter, finish_input, read_key}
use asynchronous_messenger.Ui.Steps.{
  UiEvent, turn, answered, prompted, key, timer, cleanup, arrived, broken, is_none, step, UiReach,
}
use asynchronous_messenger.Ui.Calls.{frame, call-frame}
use asynchronous_messenger.Ui.Exit.{told, told-frame, ended, finish_input-exit}
use asynchronous_messenger.Ui.Reach.{UiReach-UiInv}

module _ {Json : Type 0} (lib : JsonLib Json) (format_time : ℕ → String) (net : Net) (now : ℕ) where
  -- A line that is not /exit ends, and leaves the frame.
  pub finish_input-frame :
      (i : ChatInput) (ui : Ui Json)
      → (i.input == "/exit") ≡ false
      → (v : Ui Json) × (finish_input lib format_time net now i ui ≡ some v)
        × (frame v ≡ frame (ended lib format_time net now ui))
  unfolding finish_input display_message
  finish_input-frame i ui e =
      let over = put (row "") (told lib format_time net now i ui) in
      elim (Bool-cases (not (blank i.input))) [
        | inl full ↦ (
          display_message format_time
              (call format_time lib net now (writing i.input) over).client.machine.current_username
              i.input net.time (call format_time lib net now (writing i.input) over),
          rw (e, finish_input) (rw (full, finish_input) refl),
          call-frame lib format_time net now (writing i.input) over
              ∙ told-frame lib format_time net now i ui,
        )
        | inr empty ↦ (
          over,
          rw (e, finish_input) (rw (empty, finish_input) refl),
          told-frame lib format_time net now i ui,
        )
      ]

  -- Enter on the line /exit.
  abbrev pub EnteredExit : UiEvent → Option ChatInput → Type 0
  EnteredExit e line =
      (ch : Char) × (i : ChatInput) × (e ≡ key ch)
      × (is_enter ch ≡ true)
      × (line ≡ some i)
      × ((i.input == "/exit") ≡ true)

  exit_entered :
      (e : UiEvent) (ui : Ui Json)
      → step lib format_time net now e ui ≡ none
      → EnteredExit e ui.chat_input
  unfolding step read_key
  exit_entered turn ui =
      if_cases (λ (o : Option (Ui Json)). o ≡ none → EnteredExit turn ui.chat_input)
        (ui.running && is_none ui.at_menu) _ _ (λ _ dead. absurd (ground (arith, dead)))
        (λ _ dead. absurd (ground (arith, dead)))
  exit_entered (answered a) ui = elim (Option-cases ui.at_menu) [
    | inl e ↦ rw (e, step) (λ dead. absurd (ground (arith, dead)))
    | inr (s, e) ↦ rw (e, step) (λ dead. absurd (ground (arith, dead)))
  ]
  exit_entered prompted ui =
      if_cases (λ (o : Option (Ui Json)). o ≡ none → EnteredExit prompted ui.chat_input)
        (ui.chat_thread_running && ui.in_chat_mode && is_none ui.chat_input) _ _
        (λ _ dead. absurd (ground (arith, dead))) (λ _ dead. absurd (ground (arith, dead)))
  exit_entered (key ch) ui = elim (Option-cases ui.chat_input) [
    | inl e ↦ rw (e, step) (λ dead. absurd (ground (arith, dead)))
    | inr (i, e) ↦
        rw (e, step)
          (if_cases (λ (o : Option (Ui Json)). o ≡ none → EnteredExit (key ch) (some i))
            (is_enter ch) _ _
            (λ enter dead. elim (Bool-cases (i.input == "/exit")) [
              | inl exit ↦ (ch, i, refl, enter, refl, exit)
              | inr other ↦
                  let (v, goes_on, same) = finish_input-frame i ui other in
                  absurd (ground (arith, dead, goes_on))
            ])
            (λ _ dead. absurd (ground (arith, dead))))
  ]
  exit_entered timer ui = elim (Option-cases ui.chat_input) [
    | inl e ↦ rw (e, step) (λ dead. absurd (ground (arith, dead)))
    | inr (i, e) ↦ rw (e, step) (λ dead. absurd (ground (arith, dead)))
  ]
  exit_entered cleanup ui =
      if_cases (λ (o : Option (Ui Json)). o ≡ none → EnteredExit cleanup ui.chat_input)
        (ui.typing_cleanup_running && ui.in_chat_mode) _ _ (λ _ dead. absurd (ground (arith, dead)))
        (λ _ dead. absurd (ground (arith, dead)))
  exit_entered (arrived chunk) ui = λ dead. absurd (ground (arith, dead))
  exit_entered broken ui = λ dead. absurd (ground (arith, dead))

  -- In every state that the user interface comes to while it runs, the next turn of a thread
  -- ends the program by an exception exactly if it is Enter on the line /exit: the chat thread
  -- then joins itself.
  pub terminates_exactly :
      (e : UiEvent) (ui : Ui Json)
      → UiReach lib format_time ui
      → (step lib format_time net now e ui ≡ none) ↔ EnteredExit e ui.chat_input
  unfolding step read_key
  terminates_exactly e ui r =
      let inv = UiReach-UiInv lib format_time ui r in
      (
        exit_entered e ui,
        λ (ch, i, is_key, enter, reading, exit).
            let on = (inv.framed.reading i reading).0 in
            rw is_key (
              rw (reading, step)
                (rw (enter, read_key)
                  (finish_input-exit lib format_time net now i ui exit on
                    (inv.framed.thread ∙ on)))),
      )
