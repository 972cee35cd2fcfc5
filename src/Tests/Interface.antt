-- ===== src/Tests/Interface.antt =====
-- The user interface (client/client_ui.cpp) at concrete turns.
use asynchronous_messenger.Base.{
  ◌+◌, not, ◌&&◌, ◌==◌, string_eq, ◌↔◌, leb, if◌then◌else◌, ℕ, Bool, false, ◌≡◌, refl, none, some,
  List, [], ◌∷◌, ◌++◌, blank,
}
use asynchronous_messenger.Wire.{newline}
use asynchronous_messenger.Json.Sample.{Sample}
use asynchronous_messenger.JsonParser.{handle_request, is_session_authenticated}
use asynchronous_messenger.Formatter.Lines.{format_typing_status}
use asynchronous_messenger.Client.{awaiting_login}
use asynchronous_messenger.Client.Machine.{typing_request}
use asynchronous_messenger.Ui.{Ui, ChatInput, piece}
use asynchronous_messenger.Ui.Screen.{put, forget_status, wipe_status}
use asynchronous_messenger.Ui.Chat.{keep_input}
use asynchronous_messenger.Ui.Menus.{end_turn}
use asynchronous_messenger.Ui.Steps.{UiEvent, key, timer, cleanup, arrived, step, run}
use asynchronous_messenger.Base.Map.{find}
use asynchronous_messenger.UserManager.{
  get_session, get_session_by_username, find_username, is_session_active,
}
use asynchronous_messenger.Ui.Invariant.{UiInv}
use asynchronous_messenger.Ui.Reach.{UiReach-UiInv}
use asynchronous_messenger.Ui.Ends.{EnteredExit, terminates_exactly}
use asynchronous_messenger.Ui.Expiry.{status_expires}
use asynchronous_messenger.Ui.Progress.{Progress}
use asynchronous_messenger.Ui.Forms.{SentForm, answers_filled_in}
use asynchronous_messenger.Ui.Alternation.{Typed, typing_alternates}
use asynchronous_messenger.Ui.Typing.{typing_displayed}
use asynchronous_messenger.Tests.Data.{calm, hasher, both_online}
use asynchronous_messenger.Tests.Codec.{codec, codec_laws, codec-Serializes, codec-RoundTrips}
use asynchronous_messenger.Tests.Chats.{
  up, clock, login_answers, to_login, to_chat, after, to_chat_runs, to_chat-UiReach,
}

UiReach-UiInv_example : UiInv (after to_chat)
UiReach-UiInv_example = UiReach-UiInv codec clock (after to_chat) to_chat-UiReach

status_expires_example :
    let ui = after to_chat in
    step codec clock up 4000 cleanup ui
    ≡ some (
        if not (blank ui.current_typing_status) && leb (ui.last_typing_time + 3000) 4000
        then put (piece "> ") (forget_status (wipe_status ui))
        else ui)
status_expires_example = status_expires codec clock up 4000 (after to_chat) to_chat-UiReach

terminates_exactly_example :
    (step codec clock up 2000 (key "\n") (after to_chat) ≡ none)
    ↔ EnteredExit codec clock up 2000 (key "\n") (after to_chat).chat_input
terminates_exactly_example =
    terminates_exactly codec clock up 2000 (key "\n") (after to_chat) to_chat-UiReach

answers_filled_in_example :
    SentForm codec up clock 2
      (after to_login).client
      (end_turn codec clock up 2 awaiting_login (login_answers "ann") (after to_login)).client
answers_filled_in_example =
    answers_filled_in codec up clock 2 awaiting_login (login_answers "ann") (after to_login)

typing_alternates_example :
    let es : List (ℕ × UiEvent) = (2000, key "h") ∷ (3500, timer) ∷ (3600, key "i") ∷ [] in
    let ui = after to_chat in
    let empty : ChatInput = record { input = ""; is_typing = false; last_keypress = 7 } in
    (j : ChatInput) × (v : Ui Sample) × (fs : List Bool) × (run codec clock up es
        (keep_input empty ui)
      ≡ some (keep_input j v))
    × Typed codec empty ui j v fs
typing_alternates_example =
    typing_alternates codec clock up codec-Serializes refl
      ((2000, key "h") ∷ (3500, timer) ∷ (3600, key "i") ∷ [])
      (record { input = ""; is_typing = false; last_keypress = 7 }) (after to_chat) refl
      to_chat_runs.2

typing_displayed_example :
    let w' = handle_request codec hasher calm (typing_request codec "ann" false) 0 both_online in
    let ui = after to_chat in
    (m : Sample) × (raw : List ℕ) × (v : Ui Sample) × ((w'.sessions 1).sent
      ≡ (both_online.sessions 1).sent ++ m ∷ [])
    × (codec.dump m ≡ some raw)
    × (step codec clock up 2000 (arrived (raw ++ newline ∷ [])) ui ≡ some v)
    × (v.current_typing_status ≡ (
        if ui.in_chat_mode && "bob" == ui.current_chat_target
        then format_typing_status "bob" false
        else ui.current_typing_status))
unfolding is_session_authenticated is_session_active find get_session_by_username find_username
    get_session
typing_displayed_example =
    typing_displayed codec codec_laws codec-RoundTrips hasher clock up 2000 calm "ann" false 0 1
      both_online (after to_chat) codec-Serializes refl refl to_chat-UiReach to_chat_runs.1
