-- ===== src/Ui.antt =====
-- client/client_ui.cpp and client/include/client_ui.h: the state of ClientUI and what it shows.
-- Its threads (run, the chat input, the timers) and the thread of the io_context take turns; each
-- turn is one step on the state.
pub mod Screen
pub mod Chat
pub mod Menus
pub mod Steps
pub mod Calls
pub mod Invariant
pub mod Keeping
pub mod Turns
pub mod Exit
pub mod Reach
pub mod ClientTurns
pub mod Refinement
pub mod Ends
pub mod Shutdown
pub mod Expiry
pub mod Writing
pub mod Alternation
pub mod Keys
pub mod Line
pub mod Arrival
pub mod Conversation
pub mod Typing
pub mod Chain
pub mod Progress
pub mod Forms
use Prim.Native.Char.{Char}
use asynchronous_messenger.Base.{ℕ, String, Bool, true, false, List, [], ◌∷◌, Option, none, some}
use asynchronous_messenger.Client.{ClientState, Client, new_client}

-- What is written to the console: a line, a text without an end of line, a line of one character,
-- a centered title, the characters that wipe so many columns of the current line, those that wipe
-- the last character, and the clearing of the screen.
pub data Shown : Type 0 where
  row : String → Shown
  piece : String → Shown
  separator : Char → ℕ → Shown
  title : String → ℕ → Shown
  wiped : ℕ → Shown
  rubbed_out : Shown
  cleared : Shown

-- The locals of handleChatInput.
pub record ChatInput : Type 0 where
  pub input : String
  pub is_typing : Bool
  pub last_keypress : ℕ

-- class ClientUI. `at_menu` is the state that handleUserInput has read, while it waits for an
-- answer, `chat_thread` whether chat_thread_ holds a thread, and `chat_input` the locals of
-- handleChatInput, while it reads keys. `screen` has what was shown, the newest first. Points of
-- the steady clock are in milliseconds.
pub record Ui (Json : Type 0) : Type 0 where
  pub client : Client Json
  pub running : Bool
  pub at_menu : Option ClientState
  pub in_chat_mode : Bool
  pub current_chat_target : String
  pub current_typing_status : String
  pub current_typing_user : String
  pub last_typing_time : ℕ
  pub chat_thread : Bool
  pub chat_thread_running : Bool
  pub typing_cleanup_running : Bool
  pub chat_input : Option ChatInput
  pub screen : List Shown

-- ClientUI::displayWelcomeScreen
abbrev pub welcome : List Shown
welcome =
    row ""
    ∷ separator "=" 60
    ∷ title "Добро пожаловать!" 60
    ∷ title "🔗 ASYNCHRONOUS MESSENGER CLIENT" 60
    ∷ separator "=" 60
    ∷ cleared
    ∷ []

-- The constructor, and run as far as its loop.
abbrev pub new_ui : {Json : Type 0} → Ui Json
new_ui = record {
  client = new_client;
  running = true;
  at_menu = none;
  in_chat_mode = false;
  current_chat_target = "";
  current_typing_status = "";
  current_typing_user = "";
  last_typing_time = 0;
  chat_thread = false;
  chat_thread_running = false;
  typing_cleanup_running = false;
  chat_input = none;
  screen = welcome;
}
