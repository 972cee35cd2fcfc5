-- ===== src/Ui/Reach.antt =====
-- The states that the turns of the threads of client/client_ui.cpp lead to.
use Prim.Native.Char.{Char}
use asynchronous_messenger.Base.{
  ℕ, ◌-◌, [], ◌∷◌, String, Bool, true, false, not, ◌&&◌, ◌≡◌, refl, sym, subst, ap, ◌∙◌, arith,
  List, some, if_cases, blank, push_back, inl, inr, Option-cases, ltb, some_inj, ◌>>=◌,
}
use asynchronous_messenger.Json.{JsonLib}
use asynchronous_messenger.Client.{Net}
use asynchronous_messenger.Client.Machine.{typing_status, read, lost}
use asynchronous_messenger.Ui.{Ui, ChatInput, new_ui, piece, rubbed_out}
use asynchronous_messenger.Ui.Screen.{put, call}
use asynchronous_messenger.Ui.Chat.{
  is_enter, is_backspace, is_printable, begin_input, keep_input, press_key, read_key, tick_timer,
}
use asynchronous_messenger.Ui.Steps.{
  UiEvent, turn, answered, prompted, key, timer, cleanup, arrived, broken, is_none, step, UiReach,
  started, stepped, run,
}
use asynchronous_messenger.Ui.Calls.{Frame, call-frame}
use asynchronous_messenger.Ui.Invariant.{
  UiInv, IfRunning, all_printable, all_printable-push_back, all_printable-pop_back, call-UiInv,
}
use asynchronous_messenger.Ui.Keeping.{put-UiInv, keep_input-UiInv, cleared-UiInv}
use asynchronous_messenger.Ui.Turns.{begin_turn-UiInv, end_turn-UiInv}
use asynchronous_messenger.Ui.Exit.{finish_input-UiInv}

module _ {Json : Type 0} (lib : JsonLib Json) (format_time : ℕ → String) where
  module _ (net : Net) (now : ℕ) where
    -- A call in a chat is still in the chat.
    in_chat_after :
        (b : Bool) (ui : Ui Json)
        → ui.in_chat_mode ≡ true
        → (call format_time lib net now (typing_status b) ui).in_chat_mode ≡ true
    in_chat_after b ui on =
        ap (λ (f : Frame). f.in_chat_mode) (call-frame lib format_time net now (typing_status b) ui)
        ∙ on

    press_key-UiInv :
        (ch : Char) (i : ChatInput) (ui : Ui Json)
        → UiInv ui
        → (ui.in_chat_mode ≡ true) × (all_printable i.input ≡ true)
        → UiInv (press_key lib format_time net now ch i ui)
    unfolding press_key
    press_key-UiInv ch i ui h (on, printable) =
        let shown = put (piece (push_back "" ch)) ui in
        let shown_kept : UiInv shown = put-UiInv _ ui h in
        let grown = push_back i.input ch in
        if_cases UiInv (is_backspace ch) _ _
          (λ _.
            if_cases UiInv (not (blank i.input)) _ _
              (λ _.
                keep_input-UiInv _ (put rubbed_out ui) (put-UiInv _ ui h) on
                  (all_printable-pop_back i.input printable))
              (λ _. keep_input-UiInv _ ui h on printable))
          (λ _.
            if_cases UiInv (is_printable ch) _ _
              (λ p.
                let fits = all_printable-push_back i.input ch p printable in
                if_cases UiInv (not i.is_typing && not (blank grown)) _ _
                  (λ _.
                    keep_input-UiInv _ (call format_time lib net now (typing_status true) shown)
                      (call-UiInv lib format_time net now (typing_status true) shown tt shown_kept)
                      (in_chat_after true shown on) fits)
                  (λ _. keep_input-UiInv _ shown shown_kept on fits))
              (λ _. keep_input-UiInv _ ui h on printable))

    tick_timer-UiInv :
        (i : ChatInput) (ui : Ui Json)
        → UiInv ui
        → (ui.in_chat_mode ≡ true) × (all_printable i.input ≡ true)
        → UiInv (tick_timer lib format_time net now i ui)
    unfolding tick_timer
    tick_timer-UiInv i ui h (on, printable) =
        let quiet = record i { is_typing = false } in
        if_cases UiInv (ltb 1000 (now - i.last_keypress) && i.is_typing) _ _
          (λ _.
            call-UiInv lib format_time net now (typing_status false) (keep_input quiet ui) tt
              (keep_input-UiInv quiet ui h on printable))
          (λ _. h)

    step-UiInv :
        (e : UiEvent) (ui : Ui Json)
        → UiInv ui
        → IfRunning UiInv (step lib format_time net now e ui)
    unfolding step read_key begin_input all_printable
    step-UiInv turn ui h =
        if_cases (IfRunning UiInv) (ui.running && is_none ui.at_menu) _ _
          (λ _. begin_turn-UiInv lib format_time net now ui.client.machine.current_state ui refl h)
          (λ _. h)
    step-UiInv (answered a) ui h = elim (Option-cases ui.at_menu) [
      | inl e ↦ rw (e, step) h
      | inr (s, e) ↦ rw (e, step) (end_turn-UiInv lib format_time net now s a ui h)
    ]
    step-UiInv prompted ui h =
        if_cases (IfRunning UiInv)
          (ui.chat_thread_running && ui.in_chat_mode && is_none ui.chat_input) _ _
          (λ on. keep_input-UiInv _ _ (put-UiInv (piece "> ") ui h) (ground (arith, on)) refl)
          (λ _. h)
    step-UiInv (key ch) ui h = elim (Option-cases ui.chat_input) [
      | inl e ↦ rw (e, step) h
      | inr (i, e) ↦
          rw (e, step)
            (if_cases (IfRunning UiInv) (is_enter ch) _ _
              (λ _. finish_input-UiInv lib format_time net now i ui h (h.framed.reading i e).0)
              (λ _. press_key-UiInv ch i ui h (h.framed.reading i e)))
    ]
    step-UiInv timer ui h = elim (Option-cases ui.chat_input) [
      | inl e ↦ rw (e, step) h
      | inr (i, e) ↦ rw (e, step) (tick_timer-UiInv i ui h (h.framed.reading i e))
    ]
    step-UiInv cleanup ui h =
        if_cases (IfRunning UiInv) (ui.typing_cleanup_running && ui.in_chat_mode) _ _
          (λ _. cleared-UiInv now ui h) (λ _. h)
    step-UiInv (arrived chunk) ui h = call-UiInv lib format_time net now (read chunk) ui tt h
    step-UiInv broken ui h = call-UiInv lib format_time net now lost ui tt h

  new_ui-UiInv : UiInv {Json = Json} new_ui
  unfolding blank
  new_ui-UiInv = record {
    framed = record {
      thread = refl;
      thread_running = refl;
      cleanup_running = refl;
      named = λ on. absurd (ground (arith, on));
      reading = λ i e. absurd (ground (arith, e));
    };
    status = λ shown. absurd (ground (arith, shown));
    partner = λ chatting. absurd (ground (arith, chatting));
  }

  -- In every state that the user interface comes to while it runs, whatever is typed, the
  -- server sends and the network fails: the threads of a chat run exactly while it is in a
  -- chat, a chat is with somebody who has a name, keys are read in a chat only, what was typed
  -- is printable ASCII, and a typing status that is shown is that of the partner of the chat.
  pub UiReach-UiInv : (ui : Ui Json) → UiReach lib format_time ui → UiInv ui
  UiReach-UiInv ui started = new_ui-UiInv
  UiReach-UiInv ui (stepped {ui = before} net now e r went) =
      subst (IfRunning UiInv) went (step-UiInv net now e before (UiReach-UiInv before r))

  -- Runs lead to such states.
  pub run-UiReach :
      (net : Net) (es : List (ℕ × UiEvent)) (ui v : Ui Json)
      → UiReach lib format_time ui
      → run lib format_time net es ui ≡ some v
      → UiReach lib format_time v
  unfolding run
  run-UiReach net [] ui v r e = subst (UiReach lib format_time) (some_inj e) r
  run-UiReach net ((now, e) ∷ es) ui v r went =
      elim (Option-cases (step lib format_time net now e ui)) [
        | inl dead ↦ absurd (ground (arith, ap (λ o. o >>= run lib format_time net es) dead, went))
        | inr (next, on) ↦
            run-UiReach net es next v (stepped net now e r on)
              (sym (ap (λ o. o >>= run lib format_time net es) on) ∙ went)
      ]
