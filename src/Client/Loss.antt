-- ===== src/Client/Loss.antt =====
-- The error branch of ClientConnection::do_read, and connecting again
-- (client/client_connection.cpp, client/client_state_machine.cpp).
use asynchronous_messenger.Base.{String, false, ◌≡◌, refl, ◌∙◌, if_cases, arith, inl, inr}
use asynchronous_messenger.Json.{JsonLib}
use asynchronous_messenger.Client.{Client, Net, transition_to_state}
use asynchronous_messenger.Client.Receiver.{on_error, start_listening, stop_listening}
use asynchronous_messenger.Client.Connection.{
  connect, disconnect, start_receiving, handle_error, read_error,
}
use asynchronous_messenger.Client.Machine.{Action, act, try_connect, logout}
use asynchronous_messenger.Client.Requests.{act-WrotePermitted}

module _ {Json : Type 0} (lib : JsonLib Json) (net : Net) where
  error-same :
      (e : String) (c : Client Json)
      → ((handle_error e c).machine ≡ c.machine)
        × ((handle_error e c).connection.sent ≡ c.connection.sent)
  unfolding handle_error on_error
  error-same e c = (ground arith, ground arith)

  read_error-same :
      (c : Client Json)
      → ((read_error lib net c).machine ≡ c.machine)
        × ((read_error lib net c).connection.sent ≡ c.connection.sent)
  unfolding read_error
  read_error-same c =
      if_cases
        (λ (d : Client Json). (d.machine ≡ c.machine) × (d.connection.sent ≡ c.connection.sent))
        c.connection.receiving _ _ (λ _. error-same _ c) (λ _. (refl, refl))

  read_error-connected : (c : Client Json) → (read_error lib net c).connection.connected ≡ false
  unfolding read_error
  read_error-connected c = refl

  -- When its connection is lost, a client keeps the state that it believes to be in, its user
  -- and its chat, and the user's next action writes nothing.
  pub lost_unnoticed :
      (later : Net) (a : Action) (c : Client Json)
      → ((read_error lib net c).machine ≡ c.machine)
        × ((act lib later a (read_error lib net c)).connection.sent ≡ c.connection.sent)
  lost_unnoticed later a c = (
    (read_error-same c).0,
    elim (act-WrotePermitted lib later a (read_error lib net c)) [
      | inl (sent, wire) ↦ sent ∙ (read_error-same c).1
      | inr (m, raw, dump, sent, wire, permitted, open_yet) ↦
          absurd (ground (arith, open_yet, read_error-connected c))
    ],
  )

  -- The bytes of an unfinished line are still in the client's buffer after a logout and an
  -- attempt to connect again, whether it succeeds or not.
  pub rest_survives :
      (c : Client Json)
      → (try_connect net (logout c)).1.connection.message_buffer ≡ c.connection.message_buffer
  unfolding try_connect logout connect disconnect start_receiving start_listening stop_listening
      transition_to_state
  rest_survives c = ground arith
