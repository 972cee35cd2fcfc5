-- ===== src/Client/Reach.antt =====
-- The states of a client, over the actions of client/client_state_machine.cpp and the events of
-- client/client_connection.cpp.
use asynchronous_messenger.Base.{
  ℕ, String, Bool, true, false, not, ◌≡◌, refl, List, arith, if_cases, if◌then◌else◌, Option-cases,
  inl, inr, append, subst, sym,
}
use asynchronous_messenger.Json.{JsonLib}
use asynchronous_messenger.Client.{
  ClientState, menu, chatting, Client, Net, new_client, transition_to_state,
}
use asynchronous_messenger.Client.Connection.{handle_error, send_raw, send_request, read_error}
use asynchronous_messenger.Client.Machine.{
  Action, act, connecting, registering, logging_in, starting_chat, writing, typing_status,
  exiting_chat, logging_out, read, lost, is_awaiting_login, is_menu, is_chatting, start_chat,
  exit_chat, request_registration, login_user, send_message, send_typing,
}
use asynchronous_messenger.Client.Hearing.{read_some-keeps, error_told_keeps}
use asynchronous_messenger.Client.Invariant.{
  ClientInv, Change, first, after, began_chat, left_chat, heard-ClientInv, try_connect-ClientInv,
  logout-ClientInv,
}

is_menu-state : (s : ClientState) → not (is_menu s) ≡ false → s ≡ menu
is_menu-state menu h = refl
is_menu-state _ h = absurd (ground (arith, h))

is_chatting-state : (s : ClientState) → is_chatting s ≡ true → s ≡ chatting
is_chatting-state chatting h = refl
is_chatting-state _ h = absurd (ground (arith, h))

module _ {Json : Type 0} where
  start_chat-ClientInv :
      (target : String) (c : Client Json) → ClientInv c → ClientInv (start_chat target c)
  unfolding start_chat transition_to_state
  start_chat-ClientInv target c h =
      if_cases ClientInv (not (is_menu c.machine.current_state)) _ _ (λ _. h)
        (λ in_menu. record {
          logged = (
            refl,
            after h.logged.1
                (subst (λ s. Change s chatting) (sym (is_menu-state _ in_menu)) began_chat),
          );
          wired = record { reading = h.wired.reading; hearing = h.wired.hearing };
        })

  exit_chat-ClientInv : (c : Client Json) → ClientInv c → ClientInv (exit_chat c)
  unfolding exit_chat transition_to_state
  exit_chat-ClientInv c h =
      if_cases ClientInv (is_chatting c.machine.current_state) _ _
        (λ in_chat. record {
          logged = (
            refl,
            after h.logged.1
                (subst (λ s. Change s menu) (sym (is_chatting-state _ in_chat)) left_chat),
          );
          wired = record { reading = h.wired.reading; hearing = h.wired.hearing };
        })
        (λ _. h)

  send_raw-ClientInv :
      (net : Net) (m : Json) (raw : List ℕ) (c : Client Json)
      → ClientInv c
      → ClientInv (send_raw net m raw c)
  unfolding send_raw
  send_raw-ClientInv net m raw c h =
      let told = error_told_keeps heard-ClientInv in
      if_cases ClientInv (not c.connection.connected) _ _ (λ _. told _ c h)
        (λ _.
          if_cases ClientInv net.writes _ _
            (λ _. record {
              logged = h.logged;
              wired = record { reading = h.wired.reading; hearing = h.wired.hearing };
            })
            (λ _. told _ c h))

module _ {Json : Type 0} (lib : JsonLib Json) (net : Net) where
  send_request-ClientInv :
      (m : Json) (c : Client Json) → ClientInv c → ClientInv (send_request lib net m c)
  unfolding send_request
  send_request-ClientInv m c h = elim (Option-cases (lib.dump m)) [
    | inl e ↦ rw (e, send_request) (error_told_keeps heard-ClientInv _ c h)
    | inr (text, e) ↦ rw (e, send_request) (send_raw-ClientInv net m _ c h)
  ]

  read_error-ClientInv : (c : Client Json) → ClientInv c → ClientInv (read_error lib net c)
  unfolding read_error
  read_error-ClientInv c h =
      let told : ClientInv (
          if c.connection.receiving
          then handle_error (append "Read failed: " net.error_text) c
          else c) =
        if_cases ClientInv c.connection.receiving _ _ (λ _. error_told_keeps heard-ClientInv _ c h)
          (λ _. h) in
      record {
        logged = told.logged;
        wired = record {
          reading = λ on. absurd (ground (arith, on));
          hearing = told.wired.hearing;
        };
      }

  -- Every action of the user and every event of the connection keeps the invariant.
  pub act-ClientInv : (a : Action) (c : Client Json) → ClientInv c → ClientInv (act lib net a c)
  unfolding act request_registration login_user send_message send_typing
  act-ClientInv connecting c h = try_connect-ClientInv net c h
  act-ClientInv (registering u e p) c h =
      if_cases (λ (r : Bool × Client Json). ClientInv r.1)
        (not (is_awaiting_login c.machine.current_state)) _ _ (λ _. h)
        (λ _. send_request-ClientInv _ c h)
  act-ClientInv (logging_in u p) c h =
      if_cases (λ (r : Bool × Client Json). ClientInv r.1)
        (not (is_awaiting_login c.machine.current_state)) _ _ (λ _. h)
        (λ _.
          let sent = send_request-ClientInv _ c h in
          record {
            logged = sent.logged;
            wired = record { reading = sent.wired.reading; hearing = sent.wired.hearing };
          })
  act-ClientInv (starting_chat target) c h = start_chat-ClientInv target c h
  act-ClientInv (writing content) c h =
      if_cases ClientInv (not (is_chatting c.machine.current_state)) _ _ (λ _. h)
        (λ _. send_request-ClientInv _ c h)
  act-ClientInv (typing_status b) c h =
      if_cases ClientInv (not (is_chatting c.machine.current_state)) _ _ (λ _. h)
        (λ _. send_request-ClientInv _ c h)
  act-ClientInv exiting_chat c h = exit_chat-ClientInv c h
  act-ClientInv logging_out c h = logout-ClientInv c h
  act-ClientInv (read chunk) c h = read_some-keeps lib net heard-ClientInv chunk c h
  act-ClientInv lost c h = read_error-ClientInv c h

-- The states that a client can come to.
pub data ClientReach {Json : Type 0} (lib : JsonLib Json) : Client Json → Type 0 where
  created : ClientReach lib new_client
  acted :
      {c : Client Json} (net : Net) (a : Action)
      → ClientReach lib c
      → ClientReach lib (act lib net a c)

-- In every state that a client can come to, whatever the user does, the server sends and the
-- network fails: the client waits disconnected, for a login, in the menu or in a chat; each
-- change of state in its log is one that the code makes; it reads only while it is connected; and
-- while the receiver listens its two callbacks are set.
pub ClientReach-ClientInv :
    {Json : Type 0} (lib : JsonLib Json) (c : Client Json) → ClientReach lib c → ClientInv c
ClientReach-ClientInv lib c created = record {
  logged = (refl, first);
  wired = record {
    reading = λ on. absurd (ground (arith, on));
    hearing = λ on. absurd (ground (arith, on));
  };
}
ClientReach-ClientInv lib c (acted {c = d} net a r) =
    act-ClientInv lib net a d (ClientReach-ClientInv lib d r)
