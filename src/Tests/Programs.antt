-- ===== src/Tests/Programs.antt =====
-- The programs (server/server.cpp, client/client.cpp, client/simple_test_client.cpp and
-- client/debug_test.cpp) at concrete inputs.
use asynchronous_messenger.Base.{
  ◌≤◌, decimal, String, true, false, ◌≡◌, refl, none, some, List, [], ◌∷◌, ◌++◌, append, arith,
  append-nil, to_string, length, Each, ◌⊎◌,
}
use asynchronous_messenger.Wire.{newline, drain, find_newline, receive}
use asynchronous_messenger.Wire.Frames.{split}
use asynchronous_messenger.Json.Sample.{Sample}
use asynchronous_messenger.Database.{initialize}
use asynchronous_messenger.Session.{World, set_session}
use asynchronous_messenger.Server.{accepted, received, step, start_server}
use asynchronous_messenger.Server.Reach.{Reach, started, next}
use asynchronous_messenger.Server.Answers.{answers}
use asynchronous_messenger.Server.Answers.Lines.{questions}
use asynchronous_messenger.Server.Answers.Ledger.{heard, answered_once}
use asynchronous_messenger.Client.{new_client}
use asynchronous_messenger.Client.Understanding.{Handled, Unfit}
use asynchronous_messenger.Client.Understanding.Sent.{sent_understood}
use asynchronous_messenger.Client.Transport.{nothing, more}
use asynchronous_messenger.Ui.{Ui}
use asynchronous_messenger.Base.Int.{ℤ}
use asynchronous_messenger.Programs.Port.{low_bits}
use asynchronous_messenger.Programs.ServerMain.{Host, serving, chosen_port, server_main}
use asynchronous_messenger.Programs.ServerMain.Starts.{port_bound, serving-Reach}
use asynchronous_messenger.Programs.SimpleTest.{Talk, Meanwhile, on, simple_test, exit_status}
use asynchronous_messenger.Programs.SimpleTest.Completion.{simple_test_completes}
use asynchronous_messenger.Programs.ClientMain.{returned}
use asynchronous_messenger.Programs.DebugTest as Debugging
use asynchronous_messenger.Programs.DebugTest.{Debug, debug_main, debug_request}
use asynchronous_messenger.Programs.DebugTest.Prints.{debug_prints}
use asynchronous_messenger.Tests.Data.{calm, hasher, file, fresh, bob_to_ann}
use asynchronous_messenger.Tests.Codec.{codec, codec_laws, codec-Serializes, codec-RoundTrips}
use asynchronous_messenger.Tests.Chats.{up, line, raw_of, after}

-- The world behind the start of the server.
abbrev initial : World Sample
initial = record fresh { next_session = 0 }

-- A connection was accepted, and sent `{` and, in another read, a newline and `}`.
abbrev later : World Sample
later =
    step codec hasher calm (received 0 (10 ∷ 125 ∷ []))
      (step codec hasher calm (received 0 (123 ∷ [])) (step codec hasher calm accepted initial))

later-Reach : Reach codec hasher file later
unfolding start_server initialize step receive drain set_session find_newline
later-Reach =
    next calm (received 0 (10 ∷ 125 ∷ []))
      (next calm (received 0 (123 ∷ [])) (next calm accepted (started {w = initial} calm refl) tt)
        (omega arith))
      (omega arith)

answered_once_example :
    (answers codec (later.sessions 0).sent ≡ questions codec (split (heard codec later-Reach 0)).0)
    × ((later.sessions 0).message_buffer ≡ (split (heard codec later-Reach 0)).1)
answered_once_example =
    answered_once codec codec_laws codec-Serializes hasher file later later-Reach 0

sent_understood_example :
    Each (λ m. Handled codec up new_client m ⊎ Unfit codec up m) (later.sessions 0).sent
sent_understood_example =
    sent_understood codec codec_laws up hasher file later new_client 0 later-Reach

abbrev willing : Host
willing = record { refuses = λ port. none; unopened = none; uncreated = "SQL error" }

port_bound_example :
    server_main willing calm file ("server" ∷ to_string 40000 ∷ [])
    ≡ serving 40000
        (append "Starting Asynchronous Messenger Server on port " (to_string 40000)
          ∷ append "Server listening on port " (to_string 40000)
          ∷ [])
        initial
unfolding start_server initialize
port_bound_example =
    port_bound willing calm file "server" 40000 initial (omega arith) refl refl refl

default_port :
    server_main willing calm file ("server" ∷ [])
    ≡ serving 9999
        ("Starting Asynchronous Messenger Server on port 9999" ∷ "Server listening on port 9999"
          ∷ [])
        initial
unfolding server_main start_server initialize to_string decimal append
default_port = refl

abbrev plain : List String
plain = "server" ∷ []

serving-Reach_example :
    (length plain ≤ 2)
    × ((port : ℤ) × (chosen_port plain ≡ some port) × (9999 ≡ low_bits port))
    × Reach codec hasher file initial
serving-Reach_example =
    serving-Reach codec hasher willing calm file plain 9999 _ initial default_port

-- Another connection is accepted in between, and sends a line.
abbrev visited : Meanwhile
visited = record {
  before = (calm, accepted) ∷ (calm, received 3 (123 ∷ 10 ∷ [])) ∷ [];
  env = calm;
  after = [];
}

abbrev alone : Meanwhile
alone = record { before = []; env = calm; after = [] }

simple_test_completes_example :
    (t : Talk Sample) × (rest : List Sample) × (simple_test codec hasher calm alone visited alone
        fresh
      ≡ on t)
    × (exit_status true (simple_test codec hasher calm alone visited alone fresh) ≡ some 0)
    × (length t.printed ≡ 3)
    × ((t.world.sessions 2).sent ≡ t.printed ++ rest)
    × (answers codec (t.world.sessions 2).sent ≡ 3)
simple_test_completes_example =
    simple_test_completes codec hasher calm alone visited alone fresh codec-RoundTrips codec_laws
      codec-Serializes (tt, tt) ((tt, (refl, tt)), tt) (tt, tt)

debug_prints_example :
    (d : Debug Sample) × (debug_main codec up up (line (raw_of (codec.dump bob_to_ann)) ∷ [])
      ≡ Debugging.returned d)
    × (d.printed ≡ bob_to_ann ∷ [])
    × (d.client.connection.sent ≡ debug_request codec ∷ [])
    × (d.client.connection.wire ≡ raw_of (codec.dump (debug_request codec)) ++ newline ∷ [])
    × (d.client.connection.connected ≡ false)
debug_prints_example =
    debug_prints codec codec-RoundTrips up up (bob_to_ann ∷ [])
      (raw_of (codec.dump bob_to_ann) ∷ []) (raw_of (codec.dump (debug_request codec)))
      (line (raw_of (codec.dump bob_to_ann)) ∷ []) refl refl refl (more refl nothing) (append-nil _)
