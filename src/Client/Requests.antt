-- ===== src/Client/Requests.antt =====
-- The requests that the actions of client/client_state_machine.cpp write, and the states in which
-- they may.
use asynchronous_messenger.Base.{
  ℕ, String, Bool, true, not, ◌≡◌, refl, List, [], ◌∷◌, ◌++◌, ◌⊎◌, arith, if_cases, Option-cases,
  inl, inr, not-false, some,
}
use asynchronous_messenger.Json.{JsonLib}
use asynchronous_messenger.Wire.{newline}
use asynchronous_messenger.Client.{ClientStateMachine, Client, Net, transition_to_state}
use asynchronous_messenger.Client.Receiver.{
  on_error, on_login, on_register, start_listening, stop_listening,
}
use asynchronous_messenger.Client.Connection.{
  connect, disconnect, start_receiving, handle_error, send_raw, send_request, read_error,
}
use asynchronous_messenger.Client.Machine.{
  Action, act, connecting, registering, logging_in, starting_chat, writing, typing_status,
  exiting_chat, logging_out, read, lost, is_awaiting_login, is_chatting, try_connect, start_chat,
  exit_chat, logout, request_registration, login_user, send_message, send_typing, register_request,
  login_request, chat_request, typing_request,
}
use asynchronous_messenger.Client.Hearing.{Heard, read_some-keeps, error_told_keeps}

-- The requests that may be written in a state.
pub data Permitted {Json : Type 0} (lib : JsonLib Json) (m : ClientStateMachine)
    : Json → Type 0 where
  may_register :
      (username email password : String)
      → is_awaiting_login m.current_state ≡ true
      → Permitted lib m (register_request lib username email password)
  may_log_in :
      (username password : String)
      → is_awaiting_login m.current_state ≡ true
      → Permitted lib m (login_request lib username password)
  may_write :
      (content : String)
      → is_chatting m.current_state ≡ true
      → Permitted lib m (chat_request lib m.chat_target content)
  may_tell_typing :
      (is_typing : Bool)
      → is_chatting m.current_state ≡ true
      → Permitted lib m (typing_request lib m.chat_target is_typing)

abbrev SameSent : {Json : Type 0} → Client Json → Client Json → Type 0
SameSent c d = (d.connection.sent ≡ c.connection.sent) × (d.connection.wire ≡ c.connection.wire)

-- Nothing was written, or one request, which was permitted, on an open connection.
abbrev pub WrotePermitted : {Json : Type 0} → JsonLib Json → Client Json → Client Json → Type 0
WrotePermitted {Json} lib c d =
    SameSent c d
    ⊎ ((m : Json) × (raw : List ℕ) × (lib.dump m ≡ some raw)
        × (d.connection.sent ≡ c.connection.sent ++ m ∷ [])
        × (d.connection.wire ≡ c.connection.wire ++ (raw ++ newline ∷ []))
        × Permitted lib c.machine m
        × (c.connection.connected ≡ true))

module _ {Json : Type 0} where
  heard-SameSent : (c : Client Json) → Heard (SameSent c)
  unfolding on_login on_register transition_to_state on_error
  heard-SameSent c = record {
    login = λ d h. h;
    register = λ d h. h;
    told = λ n d h. h;
    failed = λ e d h. h;
    buffered = λ rest d h. h;
  }

  error-SameSent : (e : String) (c : Client Json) → SameSent c (handle_error e c)
  error-SameSent e c = error_told_keeps (heard-SameSent c) e c (refl, refl)

  try_connect-SameSent : (net : Net) (c : Client Json) → SameSent c (try_connect net c).1
  unfolding try_connect connect start_receiving start_listening transition_to_state
  try_connect-SameSent net c = (ground arith, ground arith)

  logout-SameSent : (c : Client Json) → SameSent c (logout c)
  unfolding logout stop_listening disconnect transition_to_state
  logout-SameSent c = (ground arith, ground arith)

module _ {Json : Type 0} (lib : JsonLib Json) (net : Net) where
  send_request-WrotePermitted :
      (m : Json) (c : Client Json)
      → Permitted lib c.machine m
      → WrotePermitted lib c (send_request lib net m c)
  unfolding send_request send_raw
  send_request-WrotePermitted m c ok = elim (Option-cases (lib.dump m)) [
    | inl e ↦ rw (e, send_request) (inl (error-SameSent _ c))
    | inr (text, e) ↦
        rw (e, send_request)
          (if_cases (WrotePermitted lib c) (not c.connection.connected) _ _
            (λ _. inl (error-SameSent _ c))
            (λ on.
              if_cases (WrotePermitted lib c) net.writes _ _
                (λ _. inr (m, text, e, refl, refl, ok, not-false _ on))
                (λ _. inl (error-SameSent _ c))))
  ]

  read_error-SameSent : (c : Client Json) → SameSent c (read_error lib net c)
  unfolding read_error
  read_error-SameSent c =
      if_cases (SameSent c) c.connection.receiving _ _ (λ _. error-SameSent _ c) (λ _. (refl, refl))

  pub act-WrotePermitted : (a : Action) (c : Client Json) → WrotePermitted lib c (act lib net a c)
  unfolding act request_registration login_user send_message send_typing start_chat exit_chat
      transition_to_state
  act-WrotePermitted connecting c = inl (try_connect-SameSent net c)
  act-WrotePermitted (registering u e p) c =
      if_cases (λ (r : Bool × Client Json). WrotePermitted lib c r.1)
        (not (is_awaiting_login c.machine.current_state)) _ _ (λ _. inl (refl, refl))
        (λ here. send_request-WrotePermitted _ c (may_register u e p (not-false _ here)))
  act-WrotePermitted (logging_in u p) c =
      if_cases (λ (r : Bool × Client Json). WrotePermitted lib c r.1)
        (not (is_awaiting_login c.machine.current_state)) _ _ (λ _. inl (refl, refl))
        (λ here. send_request-WrotePermitted _ c (may_log_in u p (not-false _ here)))
  act-WrotePermitted (starting_chat target) c = inl (ground arith, ground arith)
  act-WrotePermitted (writing content) c =
      if_cases (WrotePermitted lib c) (not (is_chatting c.machine.current_state)) _ _
        (λ _. inl (refl, refl))
        (λ here. send_request-WrotePermitted _ c (may_write content (not-false _ here)))
  act-WrotePermitted (typing_status b) c =
      if_cases (WrotePermitted lib c) (not (is_chatting c.machine.current_state)) _ _
        (λ _. inl (refl, refl))
        (λ here. send_request-WrotePermitted _ c (may_tell_typing b (not-false _ here)))
  act-WrotePermitted exiting_chat c = inl (ground arith, ground arith)
  act-WrotePermitted logging_out c = inl (logout-SameSent c)
  act-WrotePermitted (read chunk) c =
      inl (read_some-keeps lib net (heard-SameSent c) chunk c (refl, refl))
  act-WrotePermitted lost c = inl (read_error-SameSent c)
