-- ===== src/Client/Connection.antt =====
-- client/client_connection.cpp. `send_raw` is the overload of send for texts; what it is given is
-- the text of a message with a newline behind it.
use asynchronous_messenger.Base.{
  ℕ, String, Bool, true, false, not, ◌||◌, none, some, List, [], ◌∷◌, ◌++◌, if◌then◌else◌, append,
}
use asynchronous_messenger.Json.{JsonLib}
use asynchronous_messenger.Wire.{newline, receive}
use asynchronous_messenger.Client.{Client, Net}
use asynchronous_messenger.Client.Receiver.{on_error, handle_incoming_message}

module _ {Json : Type 0} where
  -- ClientConnection::connect
  unfoldable pub connect : Net → Client Json → Bool × Client Json
  connect net c =
      if net.connects
      then (true, record c { connection = record c.connection { connected = true } })
      else (false, c)

  -- ClientConnection::disconnect
  unfoldable pub disconnect : Client Json → Client Json
  disconnect c =
      if c.connection.connected
      then record c { connection = record c.connection { connected = false; receiving = false } }
      else c

  -- ClientConnection::handle_error
  unfoldable pub handle_error : String → Client Json → Client Json
  unfolding on_error
  handle_error error c = if c.connection.error_callback then on_error error c else c

  -- ClientConnection::startReceiving; reads are events from then on
  unfoldable pub start_receiving : Client Json → Client Json
  start_receiving c =
      if not c.connection.connected || c.connection.receiving
      then c
      else record c { connection = record c.connection { receiving = true } }

  -- ClientConnection::stopReceiving
  unfoldable pub stop_receiving : Client Json → Client Json
  stop_receiving c = record c { connection = record c.connection { receiving = false } }

  unfoldable pub send_raw : Net → Json → List ℕ → Client Json → Client Json
  unfolding handle_error
  send_raw net message raw_message c =
      if not c.connection.connected
      then handle_error "Not connected to server" c
      else if net.writes
      then record c {
        connection = record c.connection {
          sent = c.connection.sent ++ message ∷ [];
          wire = c.connection.wire ++ raw_message;
        };
      }
      else handle_error (append "Send failed: " net.error_text) c

module _ {Json : Type 0} (lib : JsonLib Json) (net : Net) where
  -- ClientConnection::send
  unfoldable pub send_request : Json → Client Json → Client Json
  unfolding send_raw
  send_request message c = elim (lib.dump message) [
    | none ↦ handle_error (append "Error serializing message: " net.error_text) c
    | some text ↦ send_raw net message (text ++ newline ∷ []) c
  ]

  -- ClientConnection::handle_message
  unfoldable pub handle_line : List ℕ → Client Json → Client Json
  unfolding handle_error
  handle_line message c = elim (lib.parse message) [
    | none ↦ handle_error (append "JSON parse error: " net.error_text) c
    | some parsed_message ↦
        if c.connection.message_callback
        then handle_incoming_message lib net parsed_message c
        else c
  ]

  -- The callback of ClientConnection::do_read, without and with an error. The buffer is read and
  -- written by this loop alone.
  unfoldable pub read_some : List ℕ → Client Json → Client Json
  unfolding handle_line
  read_some chunk c =
      let done = receive handle_line c.connection.message_buffer chunk c in
      if c.connection.receiving
      then elim done [
        | none ↦ c
        | some (rest, c') ↦ record c' {
          connection = record c'.connection { message_buffer = rest };
        }
      ]
      else c

  unfoldable pub read_error : Client Json → Client Json
  unfolding handle_error
  read_error c =
      let told =
        if c.connection.receiving
        then handle_error (append "Read failed: " net.error_text) c
        else c in
      record told { connection = record told.connection { connected = false; receiving = false } }
