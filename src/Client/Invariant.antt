-- ===== src/Client/Invariant.antt =====
-- The state of a client between two actions: the log of ClientStateMachine::transitionToState and
-- the flags of the connection and of the receiver.
use asynchronous_messenger.Base.{
  Bool, true, false, not, ◌||◌, ◌≡◌, refl, List, [], ◌∷◌, arith, if_cases, inl, inr, subst, sym,
  ◌∙◌, Bool-cases,
}
use asynchronous_messenger.Client.{
  ClientState, disconnected, connected, awaiting_login, registered, logged_in, menu, chatting,
  ClientStateMachine, Client, Net, transition_to_state,
}
use asynchronous_messenger.Client.Receiver.{
  on_error, on_login, on_register, start_listening, stop_listening,
}
use asynchronous_messenger.Client.Connection.{connect, disconnect, start_receiving}
use asynchronous_messenger.Client.Machine.{try_connect, forget_user, logout}
use asynchronous_messenger.Client.Hearing.{Heard}

-- The changes of state that the code makes. The answers to a login and to a registration are taken
-- in any state.
pub data Change : ClientState → ClientState → Type 0 where
  tried : (s : ClientState) → Change s ClientState.try_connect
  reached : Change ClientState.try_connect connected
  refused : Change ClientState.try_connect disconnected
  listened : Change connected awaiting_login
  confirmed_login : (s : ClientState) → Change s logged_in
  entered : Change logged_in menu
  confirmed_registration : (s : ClientState) → Change s registered
  returned : Change registered awaiting_login
  began_chat : Change menu chatting
  left_chat : Change chatting menu
  logged_out : (s : ClientState) → Change s disconnected

-- A log of states, the newest first, that ends in the state and in which each is a change from the
-- one before.
pub data Follows : ClientState → List ClientState → Type 0 where
  first : Follows disconnected (disconnected ∷ [])
  after :
      {s t : ClientState} {log : List ClientState}
      → Follows s log
      → Change s t
      → Follows t (t ∷ log)

-- The states in which the client waits for the user or for the server.
abbrev pub is_settled : ClientState → Bool
is_settled disconnected = true
is_settled awaiting_login = true
is_settled menu = true
is_settled chatting = true
is_settled _ = false

abbrev pub Logged : ClientStateMachine → Type 0
Logged m = (is_settled m.current_state ≡ true) × Follows m.current_state m.states

-- The client reads only while it is connected, and while the receiver listens its callbacks are set.
pub record Wired {Json : Type 0} (c : Client Json) : Type 0 where
  pub reading : c.connection.receiving ≡ true → c.connection.connected ≡ true
  pub hearing :
      c.listening ≡ true
      → (c.connection.message_callback ≡ true) × (c.connection.error_callback ≡ true)

pub record ClientInv {Json : Type 0} (c : Client Json) : Type 0 where
  pub logged : Logged c.machine
  pub wired : Wired c

-- The connection was changed in a way that is allowed, and the state machine was not.
abbrev Steady : {Json : Type 0} → Client Json → Client Json → Type 0
Steady c d = Wired d × (d.machine ≡ c.machine)

module _ {Json : Type 0} where
  pub heard-ClientInv : Heard {Json = Json} ClientInv
  unfolding on_login on_register transition_to_state on_error
  heard-ClientInv = record {
    login = λ c h. record {
      logged = (refl, after (after h.logged.1 (confirmed_login _)) entered);
      wired = record { reading = h.wired.reading; hearing = h.wired.hearing };
    };
    register = λ c h. record {
      logged = (refl, after (after h.logged.1 (confirmed_registration _)) returned);
      wired = record { reading = h.wired.reading; hearing = h.wired.hearing };
    };
    told = λ n c h. record {
      logged = h.logged;
      wired = record { reading = h.wired.reading; hearing = h.wired.hearing };
    };
    failed = λ e c h. record {
      logged = h.logged;
      wired = record { reading = h.wired.reading; hearing = λ off. absurd (ground (arith, off)) };
    };
    buffered = λ rest c h. record {
      logged = h.logged;
      wired = record { reading = h.wired.reading; hearing = h.wired.hearing };
    };
  }

  start_listening-Steady : (c : Client Json) → Wired c → Steady c (start_listening c)
  unfolding start_listening
  start_listening-Steady c w =
      if_cases (Steady c) c.listening _ _ (λ _. (w, refl))
        (λ _. (record { reading = w.reading; hearing = λ _. (refl, refl) }, refl))

  stop_listening-Steady : (c : Client Json) → Wired c → Steady c (stop_listening c)
  unfolding stop_listening
  stop_listening-Steady c w =
      if_cases (Steady c) (not c.listening) _ _ (λ _. (w, refl))
        (λ _. (record { reading = w.reading; hearing = λ off. absurd (ground (arith, off)) }, refl))

  start_receiving-Steady : (c : Client Json) → Wired c → Steady c (start_receiving c)
  unfolding start_receiving
  start_receiving-Steady c w =
      if_cases (Steady c) (not c.connection.connected || c.connection.receiving) _ _
        (λ _. (w, refl))
        (λ off. (record { reading = λ _. ground (arith, off); hearing = w.hearing }, refl))

  disconnect-Steady : (c : Client Json) → Wired c → Steady c (disconnect c)
  unfolding disconnect
  disconnect-Steady c w =
      if_cases (Steady c) c.connection.connected _ _
        (λ _. (record { reading = λ on. absurd (ground (arith, on)); hearing = w.hearing }, refl))
        (λ _. (w, refl))

  -- A change of state behind changes of the connection.
  transition-ClientInv :
      (t : ClientState) (c d : Client Json)
      → Steady c d
      → Follows c.machine.current_state c.machine.states
      → Change c.machine.current_state t
      → is_settled t ≡ true
      → ClientInv (transition_to_state t d)
  unfolding transition_to_state
  transition-ClientInv t c d (w, same) log change ok =
      let logged : Follows t (t ∷ d.machine.states) =
        subst (λ (m : ClientStateMachine). Follows t (t ∷ m.states)) (sym same)
          (after log change) in
      record { logged = (ok, logged); wired = record { reading = w.reading; hearing = w.hearing } }

  pub try_connect-ClientInv :
      (net : Net) (c : Client Json) → ClientInv c → ClientInv (try_connect net c).1
  unfolding try_connect connect transition_to_state
  try_connect-ClientInv net c h =
      let trying = after h.logged.1 (tried _) in
      let c1 = transition_to_state ClientState.try_connect c in
      let up = record c1 { connection = record c1.connection { connected = true } } in
      let c2 = transition_to_state connected up in
      let w2 : Wired c2 = record { reading = λ _. refl; hearing = h.wired.hearing } in
      let s3 = start_receiving-Steady c2 w2 in
      let s4 = start_listening-Steady (start_receiving c2) s3.0 in
      let w1 : Wired c1 = record { reading = h.wired.reading; hearing = h.wired.hearing } in
      elim (Bool-cases net.connects) [
        | inl e ↦
            rw (e, try_connect, connect)
              (transition-ClientInv awaiting_login c2 _ (s4.0, s4.1 ∙ s3.1) (after trying reached)
                listened refl)
        | inr e ↦
            rw (e, try_connect, connect)
              (transition-ClientInv disconnected c1 c1 (w1, refl) trying refused refl)
      ]

  pub logout-ClientInv : (c : Client Json) → ClientInv c → ClientInv (logout c)
  unfolding logout
  logout-ClientInv c h =
      let c1 = forget_user c in
      let w1 : Wired c1 = record { reading = h.wired.reading; hearing = h.wired.hearing } in
      let s2 = stop_listening-Steady c1 w1 in
      let s3 = disconnect-Steady (stop_listening c1) s2.0 in
      transition-ClientInv disconnected c1 _ (s3.0, s3.1 ∙ s2.1) h.logged.1 (logged_out _) refl
