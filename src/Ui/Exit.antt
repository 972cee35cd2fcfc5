-- ===== src/Ui/Exit.antt =====
-- The end of handleChatInput (client/client_ui.cpp), where exitChatMode is called.
use asynchronous_messenger.Base.{
  ℕ, String, true, false, not, ◌==◌, string_eq, ◌≡◌, refl, ap, ◌∙◌, none, if_cases, if◌then◌else◌,
  blank, inl, inr, Bool-cases,
}
use asynchronous_messenger.Json.{JsonLib}
use asynchronous_messenger.Client.{Net}
use asynchronous_messenger.Client.Machine.{writing, typing_status}
use asynchronous_messenger.Ui.{Ui, ChatInput, row}
use asynchronous_messenger.Ui.Screen.{put, display_message, call}
use asynchronous_messenger.Ui.Chat.{stop_chat_thread, join_itself, exit_chat_mode, finish_input}
use asynchronous_messenger.Ui.Calls.{Frame, frame, call-frame}
use asynchronous_messenger.Ui.Invariant.{UiInv, IfRunning, call-UiInv}
use asynchronous_messenger.Ui.Keeping.{put-UiInv, no_input-UiInv}

module _ {Json : Type 0} (lib : JsonLib Json) (format_time : ℕ → String) (net : Net) (now : ℕ) where
  -- The state when the line has ended and typing status is over.
  abbrev pub ended : Ui Json → Ui Json
  ended ui = record ui { chat_input = none }

  abbrev pub told : ChatInput → Ui Json → Ui Json
  told i ui =
      if i.is_typing
      then call format_time lib net now (typing_status false) (ended ui)
      else ended ui

  pub told-frame : (i : ChatInput) (ui : Ui Json) → frame (told i ui) ≡ frame (ended ui)
  told-frame i ui =
      if_cases (λ u. frame u ≡ frame (ended ui)) i.is_typing _ _
        (λ _. call-frame lib format_time net now (typing_status false) (ended ui)) (λ _. refl)

  -- A chat thread that leaves the chat joins itself.
  pub exit_chat_mode-joins :
      (ui : Ui Json)
      → ui.in_chat_mode ≡ true
      → ui.chat_thread ≡ true
      → exit_chat_mode lib format_time net now join_itself ui ≡ none
  unfolding exit_chat_mode stop_chat_thread
  exit_chat_mode-joins ui on thread = rw (on, exit_chat_mode) (rw (thread, stop_chat_thread) refl)

  pub finish_input-exit :
      (i : ChatInput) (ui : Ui Json)
      → (i.input == "/exit") ≡ true
      → ui.in_chat_mode ≡ true
      → ui.chat_thread ≡ true
      → finish_input lib format_time net now i ui ≡ none
  unfolding finish_input
  finish_input-exit i ui e on thread =
      rw (e, finish_input)
        (exit_chat_mode-joins (put (row "") (told i ui))
          (ap (λ (f : Frame). f.in_chat_mode) (told-frame i ui) ∙ on)
          (ap (λ (f : Frame). f.chat_thread) (told-frame i ui) ∙ thread))

  pub finish_input-UiInv :
      (i : ChatInput) (ui : Ui Json)
      → UiInv ui
      → ui.in_chat_mode ≡ true
      → IfRunning UiInv (finish_input lib format_time net now i ui)
  unfolding finish_input display_message
  finish_input-UiInv i ui h on =
      let calm = no_input-UiInv ui h in
      let kept : UiInv (told i ui) =
        if_cases UiInv i.is_typing _ _
          (λ _. call-UiInv lib format_time net now (typing_status false) (ended ui) tt calm)
          (λ _. calm) in
      let over = put (row "") (told i ui) in
      let over_kept : UiInv over = put-UiInv (row "") (told i ui) kept in
      elim (Bool-cases (i.input == "/exit")) [
        | inl e ↦ rw (finish_input-exit i ui e on (h.framed.thread ∙ on)) tt
        | inr e ↦
            rw (e, finish_input)
              (if_cases (IfRunning UiInv) (not (blank i.input)) _ _
                (λ _.
                  put-UiInv _ (call format_time lib net now (writing i.input) over)
                    (call-UiInv lib format_time net now (writing i.input) over tt over_kept))
                (λ _. over_kept))
      ]
