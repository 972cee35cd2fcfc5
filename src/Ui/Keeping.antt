-- ===== src/Ui/Keeping.antt =====
-- Parts of the turns of client/client_ui.cpp, and the invariant of its state.
use asynchronous_messenger.Base.{
  ℕ, ◌-◌, String, Bool, true, false, not, ◌&&◌, string_eq, ◌≡◌, refl, ◌∙◌, arith, List, Option,
  none, if_cases, blank, leb, ◌/◌,
}
use asynchronous_messenger.Client.{ClientState}
use asynchronous_messenger.Ui.{Ui, Shown, ChatInput}
use asynchronous_messenger.Ui.Screen.{put, display_chat_interface, clear_typing_status_after_delay}
use asynchronous_messenger.Ui.Chat.{
  start_chat_thread, start_typing_cleanup_thread, enter_chat_mode, keep_input,
}
use asynchronous_messenger.Ui.Invariant.{
  UiInv, all_printable, new_input-FrameInv, no_input-FrameInv, menus-FrameInv,
}

module _ {Json : Type 0} where
  pub menus-UiInv :
      (b : Bool) (m : Option ClientState) (s : List Shown) (ui : Ui Json)
      → UiInv ui
      → UiInv (record ui { running = b; at_menu = m; screen = s })
  menus-UiInv b m s ui h = record {
    framed = menus-FrameInv b m ui h.framed;
    status = h.status;
    partner = h.partner;
  }

  pub put-UiInv : (s : Shown) (ui : Ui Json) → UiInv ui → UiInv (put s ui)
  put-UiInv s ui h = record { framed = h.framed; status = h.status; partner = h.partner }

  pub keep_input-UiInv :
      (i : ChatInput) (ui : Ui Json)
      → UiInv ui
      → ui.in_chat_mode ≡ true
      → all_printable i.input ≡ true
      → UiInv (keep_input i ui)
  keep_input-UiInv i ui h on printable = record {
    framed = new_input-FrameInv i ui h.framed on printable;
    status = h.status;
    partner = h.partner;
  }

  pub no_input-UiInv : (ui : Ui Json) → UiInv ui → UiInv (record ui { chat_input = none })
  no_input-UiInv ui h = record {
    framed = no_input-FrameInv ui h.framed;
    status = h.status;
    partner = h.partner;
  }

  pub enter_chat_mode-UiInv :
      (target : String) (ui : Ui Json)
      → blank target ≡ false
      → UiInv ui
      → UiInv (enter_chat_mode target ui)
  unfolding enter_chat_mode start_chat_thread start_typing_cleanup_thread display_chat_interface
  enter_chat_mode-UiInv target ui names h =
      if_cases UiInv ui.in_chat_mode _ _ (λ _. h)
        (λ off. rw (h.framed.thread_running ∙ off) (
          rw (h.framed.cleanup_running ∙ off) (record {
            framed = record {
              thread = refl;
              thread_running = refl;
              cleanup_running = refl;
              named = λ _. names;
              reading = λ i e. absurd (ground (arith, h.framed.reading i e, off));
            };
            status = λ shown. absurd (ground (arith, h.status shown, off));
            partner = h.partner;
          })))

  pub cleared-UiInv :
      (now : ℕ) (ui : Ui Json) → UiInv ui → UiInv (clear_typing_status_after_delay now ui)
  unfolding clear_typing_status_after_delay blank
  cleared-UiInv now ui h =
      if_cases UiInv
        (not (blank ui.current_typing_status)
          && not (blank ui.current_typing_user)
          && leb 3 ((now - ui.last_typing_time) / 1000))
        _ _
        (λ _. record {
          framed = h.framed;
          status = λ shown. absurd (ground (arith, shown));
          partner = h.partner;
        })
        (λ _. h)
