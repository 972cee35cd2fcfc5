-- ===== src/Tests/Clients.antt =====
-- Clients (client/): their states, what they write and what they read.
use asynchronous_messenger.Base.{
  ◌++◌, true, ◌≡◌, refl, [], ◌∷◌, foldl, arith, c_str, nat_eq, to_string, decimal, append,
}
use asynchronous_messenger.Json.{JsonLib}
use asynchronous_messenger.Json.Sample.{Sample, sample_laws}
use asynchronous_messenger.Base.Map.{find}
use asynchronous_messenger.Database.{get_user_by_id, user_of_row}
use asynchronous_messenger.UserManager.{is_session_active, no_sessions}
use asynchronous_messenger.Session.{World, new_session, set_session}
use asynchronous_messenger.JsonParser.{
  response, handle_request, register_with, login_with, is_session_authenticated,
}
use asynchronous_messenger.Server.{received, step}
use asynchronous_messenger.Client.{Client, Net, new_client, chat, notify}
use asynchronous_messenger.Client.Receiver.{handle_incoming_message}
use asynchronous_messenger.Client.Connection.{read_error}
use asynchronous_messenger.Client.Machine.{
  act, connecting, registering, writing, register_request, login_request, chat_request,
}
use asynchronous_messenger.Client.Invariant.{ClientInv}
use asynchronous_messenger.Client.Reach.{ClientReach, created, acted, ClientReach-ClientInv}
use asynchronous_messenger.Client.Protocol.{accounts_understood}
use asynchronous_messenger.Client.Loss.{lost_unnoticed}
use asynchronous_messenger.Client.Transport.{sent_handled}
use asynchronous_messenger.Client.Conversation.{chat_reaches}
use asynchronous_messenger.Client.Mailbox.{chat_waits_and_reaches}
use asynchronous_messenger.Database.{get_user}
use asynchronous_messenger.UserManager.{
  get_session, authenticate_user, hash_password, verify_password,
}
use asynchronous_messenger.Database.Messages.{waiting}
use mathlib.Core.List.{Mem}
use asynchronous_messenger.Tests.Codec.{codec, codec-RoundTrips}
use asynchronous_messenger.Tests.Data.{
  lib-Serializes, ann_row, both_online, calm-IsHealthy, calm-Orders, calm, hasher, lib, table,
  two_users, bob_row, bob_online, fresh,
}

abbrev up : Net
up = record { connects = true; writes = true; error_text = "broken pipe"; time = 1714557600 }

-- A client that has connected and has asked to register.
abbrev asked : {Json : Type 0} → JsonLib Json → Client Json
asked j = act j up (registering "eve" "eve@x" "one") (act j up connecting new_client)

asked-Reach : {Json : Type 0} (j : JsonLib Json) → ClientReach j (asked j)
asked-Reach j = acted up (registering "eve" "eve@x" "one") (acted up connecting created)

ClientReach-ClientInv_example : ClientInv (asked lib)
ClientReach-ClientInv_example = ClientReach-ClientInv lib (asked lib) (asked-Reach lib)

accounts_understood_example :
    (handle_request lib hasher calm (register_request lib "eve" "eve@x" "one") 0 fresh
      ≡ register_with lib hasher calm "eve" "eve@x" "one" 0 fresh)
    × (handle_request lib hasher calm (login_request lib "eve" "one") 0 fresh
        ≡ login_with lib hasher calm "eve" "one" 0 fresh)
accounts_understood_example =
    accounts_understood lib (sample_laws table) hasher calm "eve" "eve@x" "one" 0 fresh

lost_unnoticed_example :
    ((read_error lib up (asked lib)).machine ≡ (asked lib).machine)
    × ((act lib up (writing "hello") (read_error lib up (asked lib))).connection.sent
        ≡ (asked lib).connection.sent)
lost_unnoticed_example = lost_unnoticed lib up up (writing "hello") (asked lib)

abbrev quiet : World Sample
quiet = record {
  db = two_users;
  manager = no_sessions;
  sessions = λ i. new_session;
  next_session = 1;
}

sent_handled_example :
    let w' =
      foldl (λ v m. handle_request codec hasher calm m 0 v) quiet (asked codec).connection.sent in
    step codec hasher calm (received 0 (asked codec).connection.wire) quiet
    ≡ set_session 0 (record (w'.sessions 0) { message_buffer = [] }) w'
sent_handled_example =
    sent_handled codec codec-RoundTrips hasher calm 0 (asked codec) quiet (asked-Reach codec) refl

chat_reaches_example :
    let w' = handle_request lib hasher calm (chat_request lib "ann" "hello") 0 both_online in
    (m : Sample) × ((w'.sessions 1).sent ≡ (both_online.sessions 1).sent ++ m ∷ [])
    × (handle_incoming_message lib up m (asked lib)
        ≡ notify (chat "bob" "hello" 1714557600) (asked lib))
    × ((w'.sessions 0).sent
        ≡ (both_online.sessions 0).sent ++ response lib calm "message" true "Message sent" ∷ [])
unfolding is_session_authenticated is_session_active find get_user get_user_by_id get_session c_str
chat_reaches_example =
    chat_reaches lib (sample_laws table) calm hasher up "ann" "hello" 0 1 both_online
      (user_of_row bob_row) (user_of_row ann_row) (asked lib) lib-Serializes calm-IsHealthy refl
      refl refl refl (λ e. omega (arith, e))

chat_waits_and_reaches_example :
    let w1 = handle_request lib hasher calm (chat_request lib "ann" "hello") 0 bob_online in
    let w2 = handle_request lib hasher calm (login_request lib "ann" "one") 1 w1 in
    (m : Sample) × Mem m (w2.sessions 1).sent
    × (handle_incoming_message lib up m (asked lib)
        ≡ notify (chat "bob" "hello" 1714557600) (asked lib))
    × (waiting 1 w2.db ≡ [])
unfolding is_session_authenticated is_session_active find get_user get_user_by_id get_session c_str
    authenticate_user hash_password verify_password to_string decimal append
chat_waits_and_reaches_example =
    chat_waits_and_reaches lib (sample_laws table) hasher calm calm up "ann" "one" "hello" 0 1
      bob_online (user_of_row bob_row) (user_of_row ann_row) (asked lib) lib-Serializes
      calm-IsHealthy calm-IsHealthy calm-Orders refl refl refl refl refl
