-- ===== src/Ui/Keys.antt =====
-- The keys of a text, in handleChatInput of client/client_ui.cpp.
use Prim.Native.Char.{Char}
use asynchronous_messenger.Base.{
  ℕ, suc, String, true, false, not, ◌&&◌, string_eq, ◌≡◌, refl, sym, ap, ◌∙◌, arith, List, [], ◌∷◌,
  ◌++◌, Option, some, if_true, if_false, blank, append, append-empty, push_back, push_back-blank,
  push_back-append, ◌>>=◌, bind_assoc, fun_ext,
}
use asynchronous_messenger.Json.{JsonLib}
use asynchronous_messenger.Client.{Net}
use asynchronous_messenger.Client.Machine.{typing_status}
use asynchronous_messenger.Ui.{Ui, Shown, ChatInput, piece}
use asynchronous_messenger.Ui.Screen.{put, call}
use asynchronous_messenger.Ui.Chat.{
  is_enter, is_backspace, is_printable, keep_input, press_key, read_key,
}
use asynchronous_messenger.Ui.Steps.{UiEvent, key, step, run}
use asynchronous_messenger.Ui.Invariant.{all_printable}

-- The keys of a text, from the n-th on, each at its time.
abbrev pub keys : (ℕ → ℕ) → ℕ → String → List (ℕ × UiEvent)
keys time n String.[] = []
keys time n (String.◌∷◌ c s) = (time n, key c) ∷ keys time (suc n) s

printable-enter : (ch : Char) → is_printable ch ≡ true → is_enter ch ≡ false
printable-enter ch p = ground arith

printable-backspace : (ch : Char) → is_printable ch ≡ true → is_backspace ch ≡ false
printable-backspace ch p = ground arith

module _ {Json : Type 0} (lib : JsonLib Json) (format_time : ℕ → String) (net : Net) where
  -- The status is sent with the first character only.
  pressed :
      (now : ℕ) (ch : Char) (i : ChatInput) (ui : Ui Json)
      → is_printable ch ≡ true
      → i.is_typing ≡ true
      → step lib format_time net now (key ch) (keep_input i ui)
        ≡ some (
            keep_input
              (record i { input = push_back i.input ch; last_keypress = now })
              (put (piece (push_back "" ch)) ui))
  unfolding step read_key press_key
  pressed now ch i ui p typing =
      if_false (is_enter ch) _ _ (printable-enter ch p)
      ∙ ap some (
          if_false (is_backspace ch) _ _ (printable-backspace ch p)
          ∙ if_true (is_printable ch) _ _ p
          ∙ if_false (not i.is_typing && not (blank (push_back i.input ch))) _ _
              (ground (arith, typing)))

  pub pressed_first :
      (now : ℕ) (ch : Char) (i : ChatInput) (ui : Ui Json)
      → is_printable ch ≡ true
      → i.is_typing ≡ false
      → step lib format_time net now (key ch) (keep_input i ui)
        ≡ some (
            keep_input
              (record { input = push_back i.input ch; is_typing = true; last_keypress = now })
              (call format_time lib net now
                (typing_status true)
                (put (piece (push_back "" ch)) (keep_input i ui))))
  unfolding step read_key press_key
  pressed_first now ch i ui p quiet =
      if_false (is_enter ch) _ _ (printable-enter ch p)
      ∙ ap some (
          if_false (is_backspace ch) _ _ (printable-backspace ch p)
          ∙ if_true (is_printable ch) _ _ p
          ∙ if_true (not i.is_typing && not (blank (push_back i.input ch))) _ _
              (ground (arith, quiet, push_back-blank i.input ch)))

  -- The characters behind the first one.
  pub typed_on :
      (time : ℕ → ℕ) (n : ℕ) (s : String) (i : ChatInput) (ui : Ui Json)
      → all_printable s ≡ true
      → i.is_typing ≡ true
      → (j : ChatInput) × (shown : List Shown) × (run lib format_time net
            (keys time n s)
            (keep_input i ui)
          ≡ some (keep_input j (record ui { screen = shown })))
        × (j.input ≡ append i.input s)
        × (j.is_typing ≡ true)
  unfolding run all_printable append
  typed_on time n String.[] i ui p typing = (i, ui.screen, refl, sym (append-empty i.input), typing)
  typed_on time n (String.◌∷◌ c s) i ui p typing =
      let grown : ChatInput = record i { input = push_back i.input c; last_keypress = time n } in
      let (j, shown, went, text, on) =
        typed_on time (suc n) s grown (put (piece (push_back "" c)) ui) (ground (arith, p))
          typing in
      (
        j,
        shown,
        ap (λ o. o >>= run lib format_time net (keys time (suc n) s))
              (pressed (time n) c i ui (ground (arith, p)) typing)
            ∙ went,
        text ∙ push_back-append i.input c s,
        on,
      )

  -- One list of events after another.
  pub run-append :
      (es fs : List (ℕ × UiEvent)) (ui : Ui Json)
      → run lib format_time net (es ++ fs) ui
        ≡ (run lib format_time net es ui >>= run lib format_time net fs)
  unfolding run
  run-append [] fs ui = refl
  run-append ((now, e) ∷ es) fs ui =
      let m = step lib format_time net now e ui in
      ap (λ (k : Ui Json → Option (Ui Json)). m >>= k) (fun_ext (λ u. run-append es fs u))
      ∙ sym (bind_assoc m (run lib format_time net es) (run lib format_time net fs))
