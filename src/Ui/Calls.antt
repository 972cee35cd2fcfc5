-- ===== src/Ui/Calls.antt =====
-- What a call of the client's objects, with its callbacks, does to the user interface
-- (client/client_ui.cpp).
use asynchronous_messenger.Base.{
  ℕ, String, Bool, true, false, not, ◌&&◌, ◌==◌, string_eq, eq_iff, ◌≡◌, refl, sym, subst, arith,
  List, [], ◌∷◌, Option, if_cases, blank,
}
use asynchronous_messenger.Json.{JsonLib}
use asynchronous_messenger.Formatter.Lines.{format_typing_status}
use asynchronous_messenger.Client.{ClientState, Net, Notice, chat, typing, failure}
use asynchronous_messenger.Client.Machine.{Action, act}
use asynchronous_messenger.Ui.{Ui, ChatInput, Shown, piece}
use asynchronous_messenger.Ui.Screen.{
  put, wipe_status, forget_status, display_error, display_typing_status, display_message, hear,
  hear_all, call, fresh_notices,
}

-- All of the state but the client, the typing status and the screen.
pub record Frame : Type 0 where
  pub running : Bool
  pub at_menu : Option ClientState
  pub in_chat_mode : Bool
  pub current_chat_target : String
  pub chat_thread : Bool
  pub chat_thread_running : Bool
  pub typing_cleanup_running : Bool
  pub chat_input : Option ChatInput

abbrev pub frame : {Json : Type 0} → Ui Json → Frame
frame ui = record {
  running = ui.running;
  at_menu = ui.at_menu;
  in_chat_mode = ui.in_chat_mode;
  current_chat_target = ui.current_chat_target;
  chat_thread = ui.chat_thread;
  chat_thread_running = ui.chat_thread_running;
  typing_cleanup_running = ui.typing_cleanup_running;
  chat_input = ui.chat_input;
}

-- What the displays and the callbacks do; the typing status that is shown is the partner's.
pub record Displays {Json : Type 0} (P : Ui Json → Type 0) : Type 0 where
  pub shown : (s : Shown) (ui : Ui Json) → P ui → P (put s ui)
  pub forgotten : (ui : Ui Json) → P ui → P (forget_status ui)
  pub told :
      (now : ℕ) (ui : Ui Json)
      → ui.in_chat_mode ≡ true
      → P ui
      → P (record ui {
        current_typing_status = format_typing_status ui.current_chat_target true;
        current_typing_user = ui.current_chat_target;
        last_typing_time = now;
      })

module _ {Json : Type 0} {P : Ui Json → Type 0} (displays : Displays P) where
  typing_keeps :
      (now : ℕ) (b : Bool) (ui : Ui Json)
      → ui.in_chat_mode ≡ true
      → P ui
      → P (display_typing_status now ui.current_chat_target b ui)
  unfolding display_typing_status
  typing_keeps now true ui on h =
      if_cases
        (λ (before : Ui Json). P (
          put (piece (format_typing_status ui.current_chat_target true)) (record before {
            current_typing_status = format_typing_status ui.current_chat_target true;
            current_typing_user = ui.current_chat_target;
            last_typing_time = now;
          })))
        (not (blank ui.current_typing_status)) _ _
        (λ _. displays.shown _ _ (displays.told now (wipe_status ui) on (displays.shown _ ui h)))
        (λ _. displays.shown _ _ (displays.told now ui on h))
  typing_keeps now false ui on h =
      if_cases P
        (not (blank ui.current_typing_status) && ui.current_typing_user == ui.current_chat_target) _
        _ (λ _. displays.shown _ _ (displays.forgotten _ (displays.shown _ ui h))) (λ _. h)

  module _ (format_time : ℕ → String) where
    hear_keeps : (now : ℕ) (n : Notice) (ui : Ui Json) → P ui → P (hear format_time now n ui)
    unfolding hear display_message display_error
    hear_keeps now (chat from content t) ui h =
        if_cases P (ui.in_chat_mode && from == ui.current_chat_target) _ _
          (λ _. displays.shown _ ui h) (λ _. h)
    hear_keeps now (typing username b) ui h =
        if_cases P (ui.in_chat_mode && username == ui.current_chat_target) _ _
          (λ here.
            let same : username ≡ ui.current_chat_target =
              (eq_iff username ui.current_chat_target).0 (ground (arith, here)) in
            subst (λ name. P (display_typing_status now name b ui)) (sym same)
              (typing_keeps now b ui (ground (arith, here)) h))
          (λ _. h)
    hear_keeps now (failure error) ui h = displays.shown _ ui h

    pub hear_all_keeps :
        (now : ℕ) (ns : List Notice) (ui : Ui Json) → P ui → P (hear_all format_time now ns ui)
    unfolding hear_all
    hear_all_keeps now [] ui h = h
    hear_all_keeps now (n ∷ ns) ui h = hear_keeps now n _ (hear_all_keeps now ns ui h)

module _ {Json : Type 0} (lib : JsonLib Json) (format_time : ℕ → String) (net : Net) (now : ℕ) where
  pub call_keeps :
      {P : Ui Json → Type 0} (a : Action) (ui : Ui Json)
      → Displays P
      → P (record ui { client = act lib net a ui.client })
      → P (call format_time lib net now a ui)
  unfolding call
  call_keeps a ui displays h =
      hear_all_keeps displays format_time now (fresh_notices ui.client (act lib net a ui.client)) _
        h

  pub call-frame :
      (a : Action) (ui : Ui Json) → frame (call format_time lib net now a ui) ≡ frame ui
  call-frame a ui =
      call_keeps {P = λ u. frame u ≡ frame ui} a ui
        (record { shown = λ s u h. h; forgotten = λ u h. h; told = λ t u on h. h }) refl

  pub call-client :
      (a : Action) (ui : Ui Json)
      → (call format_time lib net now a ui).client ≡ act lib net a ui.client
  call-client a ui =
      call_keeps {P = λ u. u.client ≡ act lib net a ui.client} a ui
        (record { shown = λ s u h. h; forgotten = λ u h. h; told = λ t u on h. h }) refl
