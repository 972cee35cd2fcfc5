-- ===== src/Programs/DebugTest.antt =====
-- client/debug_test.cpp: a connection (client/client_connection.cpp) with a callback that prints, a
-- request to log in, and what arrives while the program sleeps. It sets no error callback, so that
-- errors are only logged.
pub mod Prints
use asynchronous_messenger.Base.{
  ℕ, Bool, true, false, if◌then◌else◌, Option, none, some, List, [], ◌∷◌, ◌++◌,
}
use asynchronous_messenger.Json.{JsonLib, text}
use asynchronous_messenger.Wire.{receive}
use asynchronous_messenger.Client.{Client, Net, new_client}
use asynchronous_messenger.Client.Connection.{connect, disconnect, start_receiving, send_request}

-- The connection and what the callback has printed.
pub record Debug (Json : Type 0) : Type 0 where
  pub client : Client Json
  pub printed : List Json

-- What main has come to: it has returned 0, or std::terminate was called, since main was left, to
-- return 1, while its thread could still be joined.
pub data DebugProgram (Json : Type 0) : Type 0 where
  returned : Debug Json → DebugProgram Json
  terminated : DebugProgram Json

module _ {Json : Type 0} (lib : JsonLib Json) where
  -- ClientConnection::handle_message with the callback of main, which throws before it has written
  -- anything of a message that cannot be serialized
  unfoldable pub print_message : List ℕ → List Json → List Json
  print_message message printed = elim (lib.parse message) [
    | none ↦ printed
    | some parsed_message ↦ elim (lib.dump parsed_message) [
      | none ↦ printed
      | some shown ↦ printed ++ parsed_message ∷ []
    ]
  ]

  -- The callback of ClientConnection::do_read; the buffer is that of the connection.
  unfoldable pub print_read : List ℕ → Debug Json → Debug Json
  unfolding print_message
  print_read chunk d =
      let done = receive print_message d.client.connection.message_buffer chunk d.printed in
      if d.client.connection.receiving
      then elim done [
        | none ↦ d
        | some (rest, printed) ↦ record {
          client = record d.client {
            connection = record d.client.connection { message_buffer = rest };
          };
          printed = printed;
        }
      ]
      else d

  unfoldable pub print_reads : List (List ℕ) → Debug Json → Debug Json
  unfolding print_read
  print_reads [] d = d
  print_reads (chunk ∷ chunks) d = print_reads chunks (print_read chunk d)

  abbrev pub debug_request : Json
  debug_request =
      lib.put (lib.put (lib.put lib.null "type" (text "login")) "username" (text "alex")) "password"
        (text "1234")

  -- From the waiting on, with what is read meanwhile. If there is no connection, main has returned
  -- while its thread can still be joined, and the destructor of std::thread calls std::terminate.
  unfoldable pub debug_rest : List (List ℕ) → Bool → Client Json → DebugProgram Json
  unfolding disconnect print_reads
  debug_rest chunks connected asked =
      let heard = print_reads chunks (record { client = asked; printed = [] }) in
      if connected then returned (record heard { client = disconnect heard.client }) else terminated

  -- main; the request is serialized twice, the first time to be shown
  unfoldable pub debug_main : Net → Net → List (List ℕ) → DebugProgram Json
  unfolding connect start_receiving send_request debug_rest
  debug_main connecting sending chunks = elim (lib.dump debug_request) [
    | none ↦ terminated
    | some shown ↦
        let connected = connect connecting new_client in
        debug_rest chunks connected.0
          (send_request lib sending debug_request (start_receiving connected.1))
  ]
