-- ===== src/Client/Partner.antt =====
-- The partner of a chat (ClientStateMachine::chat_target_ of client/client_state_machine.cpp).
use asynchronous_messenger.Base.{
  String, Bool, true, false, not, ◌≡◌, arith, if_cases, Option-cases, inl, inr, blank,
}
use asynchronous_messenger.Json.{JsonLib}
use asynchronous_messenger.Client.{Client, Net, transition_to_state}
use asynchronous_messenger.Client.Receiver.{on_error, on_login, on_register}
use asynchronous_messenger.Client.Connection.{handle_error, send_raw, send_request, read_error}
use asynchronous_messenger.Client.Machine.{
  Action, act, connecting, registering, logging_in, starting_chat, writing, typing_status,
  exiting_chat, logging_out, read, lost, is_awaiting_login, is_menu, is_chatting, try_connect,
  start_chat, exit_chat, logout, request_registration, login_user, send_message, send_typing,
}
use asynchronous_messenger.Client.Hearing.{Heard, read_some-keeps, error_told_keeps}

-- A chat is with somebody who has a name.
abbrev pub HasPartner : {Json : Type 0} → Client Json → Type 0
HasPartner c = is_chatting c.machine.current_state ≡ true → blank c.machine.chat_target ≡ false

-- An action that starts a chat gives a name.
abbrev pub NamesPartner : Action → Type 0
NamesPartner (starting_chat target) = blank target ≡ false
NamesPartner _ = Unit

module _ {Json : Type 0} where
  pub heard-HasPartner : Heard {Json = Json} HasPartner
  unfolding on_login on_register transition_to_state on_error
  heard-HasPartner = record {
    login = λ c h chatting. absurd (ground (arith, chatting));
    register = λ c h chatting. absurd (ground (arith, chatting));
    told = λ n c h. h;
    failed = λ e c h. h;
    buffered = λ rest c h. h;
  }

  error-HasPartner : (e : String) (c : Client Json) → HasPartner c → HasPartner (handle_error e c)
  error-HasPartner e c h = error_told_keeps heard-HasPartner e c h

  try_connect-HasPartner : (net : Net) (c : Client Json) → HasPartner (try_connect net c).1
  unfolding try_connect transition_to_state
  try_connect-HasPartner net c = ground arith

module _ {Json : Type 0} (lib : JsonLib Json) (net : Net) where
  request-HasPartner :
      (m : Json) (c : Client Json) → HasPartner c → HasPartner (send_request lib net m c)
  unfolding send_request send_raw
  request-HasPartner m c h = elim (Option-cases (lib.dump m)) [
    | inl e ↦ rw (e, send_request) (error-HasPartner _ c h)
    | inr (text, e) ↦
        rw (e, send_request)
          (if_cases HasPartner (not c.connection.connected) _ _ (λ _. error-HasPartner _ c h)
            (λ _. if_cases HasPartner net.writes _ _ (λ _. h) (λ _. error-HasPartner _ c h)))
  ]

  -- Every action keeps it that gives a name to a chat.
  pub act-HasPartner :
      (a : Action) (c : Client Json) → NamesPartner a → HasPartner c → HasPartner (act lib net a c)
  unfolding act request_registration login_user send_message send_typing start_chat exit_chat logout
      read_error transition_to_state
  act-HasPartner connecting c n h = try_connect-HasPartner net c
  act-HasPartner (registering u e p) c n h =
      if_cases (λ (r : Bool × Client Json). HasPartner r.1)
        (not (is_awaiting_login c.machine.current_state)) _ _ (λ _. h)
        (λ _. request-HasPartner _ c h)
  act-HasPartner (logging_in u p) c n h =
      if_cases (λ (r : Bool × Client Json). HasPartner r.1)
        (not (is_awaiting_login c.machine.current_state)) _ _ (λ _. h)
        (λ _. request-HasPartner _ c h)
  act-HasPartner (starting_chat target) c n h =
      if_cases HasPartner (not (is_menu c.machine.current_state)) _ _ (λ _. h) (λ _ _. n)
  act-HasPartner (writing content) c n h =
      if_cases HasPartner (not (is_chatting c.machine.current_state)) _ _ (λ _. h)
        (λ _. request-HasPartner _ c h)
  act-HasPartner (typing_status b) c n h =
      if_cases HasPartner (not (is_chatting c.machine.current_state)) _ _ (λ _. h)
        (λ _. request-HasPartner _ c h)
  act-HasPartner exiting_chat c n h =
      if_cases HasPartner (is_chatting c.machine.current_state) _ _
        (λ _ chatting. absurd (ground (arith, chatting))) (λ _. h)
  act-HasPartner logging_out c n h = λ chatting. absurd (ground (arith, chatting))
  act-HasPartner (read chunk) c n h = read_some-keeps lib net heard-HasPartner chunk c h
  act-HasPartner lost c n h =
      if_cases HasPartner c.connection.receiving _ _ (λ _. error-HasPartner _ c h) (λ _. h)
