-- ===== src/Ui/Expiry.antt =====
-- The cleanup thread of client/client_ui.cpp and the typing status.
use asynchronous_messenger.Base.{
  ℕ, ◌+◌, ◌-◌, ◌/◌, String, not, ◌&&◌, ◌≡◌, ap, ◌∙◌, arith, some, blank, if◌then◌else◌, inl, inr,
  Bool-cases, leb,
}
use asynchronous_messenger.Json.{JsonLib}
use asynchronous_messenger.Client.{Net}
use asynchronous_messenger.Ui.{Ui, piece}
use asynchronous_messenger.Ui.Screen.{
  put, wipe_status, forget_status, clear_typing_status_after_delay,
}
use asynchronous_messenger.Ui.Steps.{cleanup, step, UiReach}
use asynchronous_messenger.Ui.Reach.{UiReach-UiInv}

three_seconds : (now last : ℕ) → leb 3 ((now - last) / 1000) ≡ leb (last + 3000) now
three_seconds now last = ground arith

module _ {Json : Type 0} (lib : JsonLib Json) (format_time : ℕ → String) (net : Net) where
  -- In every state that the user interface comes to while it runs, a round of the cleanup
  -- thread wipes the typing status that is shown if three seconds have passed since it was
  -- told, and otherwise changes nothing.
  pub status_expires :
      (now : ℕ) (ui : Ui Json)
      → UiReach lib format_time ui
      → step lib format_time net now cleanup ui
        ≡ some (
            if not (blank ui.current_typing_status) && leb (ui.last_typing_time + 3000) now
            then put (piece "> ") (forget_status (wipe_status ui))
            else ui)
  unfolding step clear_typing_status_after_delay
  status_expires now ui r =
      let inv = UiReach-UiInv lib format_time ui r in
      elim (Bool-cases (blank ui.current_typing_status)) [
        | inl none_shown ↦ ground (arith, none_shown)
        | inr shown ↦
            let (on, partner, same) = inv.status shown in
            ground (
              arith,
              shown,
              on,
              inv.framed.cleanup_running,
              ap blank partner ∙ inv.framed.named on,
              three_seconds now ui.last_typing_time,
            )
      ]
