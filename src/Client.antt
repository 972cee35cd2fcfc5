-- ===== src/Client.antt =====
-- The client's objects and their state. ClientConnection, MessageReceiver and ClientStateMachine
-- refer to each other, so their states stand in one record; the calls that the thread of the menus
-- and the thread of the io_context make of them are taken one after the other.
pub mod Receiver
pub mod Connection
pub mod Machine
pub mod Hearing
pub mod Invariant
pub mod Requests
pub mod Protocol
pub mod Display
pub mod Understanding
pub mod Loss
pub mod Transport
pub mod Conversation
pub mod Mailbox
pub mod Reach
pub mod Partner
use asynchronous_messenger.Base.{ℕ, String, Bool, true, false, List, [], ◌∷◌}

-- enum class ClientState
pub data ClientState : Type 0 where
  try_connect disconnected connected awaiting_login registered logged_in menu chatting : ClientState

-- What the user interface is told: the calls of the receiver's three callbacks, which ClientUI sets
-- in its constructor.
pub data Notice : Type 0 where
  chat : String → String → ℕ → Notice
  typing : String → Bool → Notice
  failure : String → Notice

-- class ClientConnection. The callbacks are set or not: the receiver is the only one that sets them.
-- Of the socket the model keeps the messages and the bytes that were written.
pub record ClientConnection (Json : Type 0) : Type 0 where
  pub connected : Bool
  pub receiving : Bool
  pub message_buffer : List ℕ
  pub message_callback : Bool
  pub error_callback : Bool
  pub sent : List Json
  pub wire : List ℕ

-- class ClientStateMachine; `states` are the states that transitionToState has printed, the newest
-- first.
pub record ClientStateMachine : Type 0 where
  pub current_state : ClientState
  pub current_username : String
  pub chat_target : String
  pub states : List ClientState

pub record Client (Json : Type 0) : Type 0 where
  pub connection : ClientConnection Json
  -- MessageReceiver::listening_
  pub listening : Bool
  pub machine : ClientStateMachine
  pub notices : List Notice

-- What the network and the libraries decide during a call: whether a host is resolved and connected
-- to, whether a write succeeds, the text of an error, and the clock.
pub record Net : Type 0 where
  pub connects : Bool
  pub writes : Bool
  pub error_text : String
  pub time : ℕ

-- The constructors.
abbrev pub new_client : {Json : Type 0} → Client Json
new_client = record {
  connection = record {
    connected = false;
    receiving = false;
    message_buffer = [];
    message_callback = false;
    error_callback = false;
    sent = [];
    wire = [];
  };
  listening = false;
  machine = record {
    current_state = ClientState.disconnected;
    current_username = "";
    chat_target = "";
    states = ClientState.disconnected ∷ [];
  };
  notices = [];
}

module _ {Json : Type 0} where
  -- ClientStateMachine::transitionToState
  unfoldable pub transition_to_state : ClientState → Client Json → Client Json
  transition_to_state new_state c = record c {
    machine = record c.machine { current_state = new_state; states = new_state ∷ c.machine.states };
  }

  abbrev pub notify : Notice → Client Json → Client Json
  notify n c = record c { notices = n ∷ c.notices }
