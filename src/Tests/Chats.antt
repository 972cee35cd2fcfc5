-- ===== src/Tests/Chats.antt =====
-- Turns of the user interface (client/client_ui.cpp): ann logs in and chats with bob, and bob with ann.
use asynchronous_messenger.Base.{
  string_eq, ℕ, String, true, false, ◌≡◌, refl, Option, none, some, List, [], ◌∷◌, ◌++◌, append,
  blank, text_length, text_drop,
}
use asynchronous_messenger.Wire.{newline, drain, find_newline, handle_nonempty, receive}
use asynchronous_messenger.Json.Sample.{Sample, member}
use asynchronous_messenger.JsonParser.{response}
use asynchronous_messenger.Router.{typing_message}
use asynchronous_messenger.Formatter.Lines.{format_prompt, format_typing_status}
use asynchronous_messenger.Client.{Net, transition_to_state}
use asynchronous_messenger.Client.Receiver.{
  is_response, on_login, start_listening, handle_server_response, handle_typing_status,
  handle_typed, handle_incoming_message,
}
use asynchronous_messenger.Client.Connection.{
  connect, start_receiving, send_raw, send_request, handle_line, read_some,
}
use asynchronous_messenger.Client.Machine.{act, try_connect, start_chat, login_user, login_request}
use asynchronous_messenger.Ui.{Ui, new_ui}
use asynchronous_messenger.Ui.Screen.{
  display_login_menu, display_main_menu, display_chat_interface, display_typing_status, hear,
  hear_all, call,
}
use asynchronous_messenger.Ui.Chat.{
  start_chat_thread, start_typing_cleanup_thread, enter_chat_mode, begin_input,
}
use asynchronous_messenger.Ui.Menus.{
  Answers, ask, login_prompts, perform_login, handle_login_menu, handle_main_menu, begin_turn,
  handle_menu, end_turn,
}
use asynchronous_messenger.Ui.Steps.{
  UiEvent, turn, answered, prompted, arrived, step, run, UiReach, started,
}
use asynchronous_messenger.Ui.Reach.{run-UiReach}
use asynchronous_messenger.Ui.Writing.{CanWrite}
use asynchronous_messenger.Ui.Arrival.{CanHear}
use asynchronous_messenger.Tests.Data.{calm}
use asynchronous_messenger.Tests.Codec.{
  codec, char_of, put_text, put_value, put_members, get_text, get_value, get_members,
}

abbrev pub up : Net
up = record { connects = true; writes = true; error_text = "broken pipe"; time = 1714557600 }

abbrev pub clock : ℕ → String
clock t = "10:00"

abbrev pub line : List ℕ → List ℕ
line raw = raw ++ newline ∷ []

abbrev pub login_answers : String → Answers
login_answers name = record { choice = "1"; username = name; email = ""; password = "one" }

abbrev pub chat_answers : String → Answers
chat_answers partner = record { choice = "2"; username = partner; email = ""; password = "" }

abbrev pub raw_of : Option (List ℕ) → List ℕ
raw_of none = []
raw_of (some raw) = raw

abbrev pub to_login : List (ℕ × UiEvent)
to_login = (0, turn) ∷ (1, turn) ∷ []

-- The user leaves the program at the login.
abbrev pub to_exit : List (ℕ × UiEvent)
to_exit =
    to_login
    ++ (2, answered (record { choice = "3"; username = ""; email = ""; password = "" })) ∷ []

abbrev pub chat_of : String → String → List (ℕ × UiEvent)
chat_of name partner =
    (0, turn)
    ∷ (1, turn)
    ∷ (2, answered (login_answers name))
    ∷ (
      3,
      arrived (line (raw_of (codec.dump (response codec calm "login" true "Login successful")))),
    )
    ∷ (4, turn)
    ∷ (5, answered (chat_answers partner))
    ∷ (6, turn)
    ∷ (7, prompted)
    ∷ []

-- ann chats with bob, who is typing, and bob with ann.
abbrev pub to_chat : List (ℕ × UiEvent)
to_chat =
    chat_of "ann" "bob"
    ++ (1000, arrived (line (raw_of (codec.dump (typing_message codec calm "bob" true))))) ∷ []

abbrev pub to_ann : List (ℕ × UiEvent)
to_ann = chat_of "bob" "ann"

abbrev pub ui_of : Option (Ui Sample) → Ui Sample
ui_of none = new_ui
ui_of (some ui) = ui

abbrev pub after : List (ℕ × UiEvent) → Ui Sample
after es = ui_of (run codec clock up es new_ui)

-- Where the turns lead.
pub to_login_runs :
    (run codec clock up to_login new_ui ≡ some (after to_login))
    × CanHear (after to_login).client
    × ((after to_login).in_chat_mode ≡ false)
unfolding run step begin_turn end_turn handle_menu handle_login_menu handle_main_menu perform_login
    login_prompts ask display_login_menu display_main_menu display_chat_interface
    display_typing_status hear hear_all call start_chat_thread start_typing_cleanup_thread
    enter_chat_mode begin_input act try_connect start_chat login_user login_request connect
    start_receiving send_raw send_request handle_line read_some start_listening is_response on_login
    handle_server_response handle_typing_status handle_typed handle_incoming_message
    transition_to_state drain find_newline handle_nonempty receive response typing_message member
    char_of put_text put_value put_members get_text get_value get_members append blank text_length
    text_drop format_prompt format_typing_status
to_login_runs = (refl, record { receiving = refl; hearing = refl; quiet = refl }, refl)

pub to_exit_runs :
    (run codec clock up to_exit new_ui ≡ some (after to_exit))
    × ((after to_exit).running ≡ false)
    × ((after to_exit).chat_input ≡ none)
unfolding run step begin_turn end_turn handle_menu handle_login_menu display_login_menu call
    hear_all hear act try_connect connect start_receiving start_listening transition_to_state
to_exit_runs = (refl, refl, refl)

pub to_chat_runs :
    (run codec clock up to_chat new_ui ≡ some (after to_chat))
    × CanHear (after to_chat).client
    × CanWrite (after to_chat).client
    × ((after to_chat).chat_input
        ≡ some (record { input = ""; is_typing = false; last_keypress = 7 }))
unfolding run step begin_turn end_turn handle_menu handle_login_menu handle_main_menu perform_login
    login_prompts ask display_login_menu display_main_menu display_chat_interface
    display_typing_status hear hear_all call start_chat_thread start_typing_cleanup_thread
    enter_chat_mode begin_input act try_connect start_chat login_user login_request connect
    start_receiving send_raw send_request handle_line read_some start_listening is_response on_login
    handle_server_response handle_typing_status handle_typed handle_incoming_message
    transition_to_state drain find_newline handle_nonempty receive response typing_message member
    char_of put_text put_value put_members get_text get_value get_members append blank text_length
    text_drop format_prompt format_typing_status
to_chat_runs = (
  refl,
  record { receiving = refl; hearing = refl; quiet = refl },
  record { in_chat = refl; open_yet = refl },
  refl,
)

pub to_ann_runs : CanHear (after to_ann).client × ((after to_ann).current_chat_target ≡ "ann")
unfolding run step begin_turn end_turn handle_menu handle_login_menu handle_main_menu perform_login
    login_prompts ask display_login_menu display_main_menu display_chat_interface
    display_typing_status hear hear_all call start_chat_thread start_typing_cleanup_thread
    enter_chat_mode begin_input act try_connect start_chat login_user login_request connect
    start_receiving send_raw send_request handle_line read_some start_listening is_response on_login
    handle_server_response handle_typing_status handle_typed handle_incoming_message
    transition_to_state drain find_newline handle_nonempty receive response typing_message member
    char_of put_text put_value put_members get_text get_value get_members append blank text_length
    text_drop format_prompt format_typing_status
to_ann_runs = (record { receiving = refl; hearing = refl; quiet = refl }, refl)

pub to_login-UiReach : UiReach codec clock (after to_login)
to_login-UiReach =
    run-UiReach codec clock up to_login new_ui (after to_login) started to_login_runs.0

pub to_chat-UiReach : UiReach codec clock (after to_chat)
to_chat-UiReach = run-UiReach codec clock up to_chat new_ui (after to_chat) started to_chat_runs.0
