-- ===== src/Programs/SimpleTest.antt =====
-- client/simple_test_client.cpp: a program that writes three requests and reads a line after each,
-- run against the server. What it has not read yet of the bytes of the server, and the answers that
-- it has printed, are its state.
pub mod Growth
pub mod Events
pub mod Handling
pub mod Completion
use asynchronous_messenger.Base.{
  ℕ, suc, String, Bool, if◌then◌else◌, Option, none, some, List, [], ◌∷◌, ◌++◌, length, take, drop,
}
use asynchronous_messenger.Json.{JsonLib, text}
use asynchronous_messenger.Env.{Env}
use asynchronous_messenger.Wire.{newline, find_newline}
use asynchronous_messenger.Session.{World}
use asynchronous_messenger.Server.{Event, accepted, received, step, run}

pub record Talk (Json : Type 0) : Type 0 where
  pub world : World Json
  pub unread : List ℕ
  pub printed : List Json

-- What the program has come to: it goes on, it waits for a line that is not there (and throws, if
-- the connection ends), or an exception has been thrown, after which it returns 1.
pub data Progress (Json : Type 0) : Type 0 where
  on : Talk Json → Progress Json
  waiting : Talk Json → Progress Json
  failed : Progress Json

infixl 5 ◌then_do◌
abbrev pub ◌then_do◌ : {Json : Type 0} → Progress Json → (Talk Json → Progress Json) → Progress Json
on t then_do f = f t
waiting t then_do f = waiting t
failed then_do f = failed

-- What happens between two steps of the program: events of the server before a request of the
-- program arrives, what is decided when it arrives, and events after that.
pub record Meanwhile : Type 0 where
  pub before : List (Env × Event)
  pub env : Env
  pub after : List (Env × Event)

-- read_until and getline; `none` while no line is there
unfoldable pub read_line : List ℕ → Option (List ℕ × List ℕ)
read_line bytes = elim (find_newline bytes) [
  | none ↦ none
  | some i ↦ some (take i bytes, drop (suc i) bytes)
]

module _ {Json : Type 0} (lib : JsonLib Json) where
  abbrev pub register_msg : Json
  register_msg =
      let named =
        lib.put (lib.put lib.null "type" (text "register")) "username" (text "testuser1") in
      lib.put (lib.put named "email" (text "test1@example.com")) "password" (text "testpassword")

  abbrev pub login_msg : Json
  login_msg =
      lib.put (lib.put (lib.put lib.null "type" (text "login")) "username" (text "testuser1"))
        "password" (text "testpassword")

  abbrev pub message_msg : Json
  message_msg =
      lib.put (lib.put (lib.put lib.null "type" (text "message")) "to" (text "testuser2")) "content"
        (text "Hello from simple test client!")

  -- The next line is read, parsed and printed.
  unfoldable pub read_response : Talk Json → Progress Json
  read_response t = elim (read_line t.unread) [
    | none ↦ waiting t
    | some (line, rest) ↦ elim (lib.parse line) [
      | none ↦ failed
      | some response ↦ elim (lib.dump response) [
        | none ↦ failed
        | some shown ↦ on (record t { unread = rest; printed = t.printed ++ response ∷ [] })
      ]
    ]
  ]

module _ {Json : Type 0} (lib : JsonLib Json) (hasher : String → ℕ) where
  -- The server, from when the request is written on to the next reading of the program.
  unfoldable pub serve : ℕ → List ℕ → Meanwhile → Talk Json → Talk Json
  serve sid bytes m t =
      let asked = step lib hasher m.env (received sid bytes) (run lib hasher m.before t.world) in
      let w = run lib hasher m.after asked in
      record t {
        world = w;
        unread = t.unread ++ drop (length (t.world.sessions sid).wire) (w.sessions sid).wire;
      }

  -- A request is written as a line, and the next line is read.
  unfoldable pub exchange : ℕ → Json → Meanwhile → Talk Json → Progress Json
  unfolding serve read_response
  exchange sid request m t = elim (lib.dump request) [
    | none ↦ failed
    | some serialized ↦ read_response lib (serve sid (serialized ++ newline ∷ []) m t)
  ]

  -- main, from the connection on
  unfoldable pub simple_test : Env → Meanwhile → Meanwhile → Meanwhile → World Json → Progress Json
  unfolding exchange
  simple_test env m1 m2 m3 w =
      let connected : Talk Json = record {
        world = step lib hasher env accepted w;
        unread = [];
        printed = [];
      } in
      exchange w.next_session (register_msg lib) m1 connected
      then_do exchange w.next_session (login_msg lib) m2
      then_do exchange w.next_session (message_msg lib) m3

-- The status that main returns, if it does; `connects` is false if resolving or connecting throws.
unfoldable pub exit_status : {Json : Type 0} → Bool → Progress Json → Option ℕ
exit_status connects p =
    if connects then elim p [ on t ↦ some 0 | waiting t ↦ none | failed ↦ some 1 ] else some 1
