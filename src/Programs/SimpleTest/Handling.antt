-- ===== src/Programs/SimpleTest/Handling.antt =====
-- A line of client/simple_test_client.cpp at the server, and a line of the server in the program.
use asynchronous_messenger.Base.{
  ℕ, suc, ◌+◌, ◌<◌, String, Bool, true, false, ◌≡◌, refl, ap, ◌∙◌, some, List, [], ◌∷◌, ◌++◌, ◌==◌,
  nat_eq, if◌then◌else◌, arith, length, take, drop, string_eq, if_true,
}
use asynchronous_messenger.Json.{JsonLib, JsonLaws, Serializes}
use asynchronous_messenger.Env.{Env}
use asynchronous_messenger.Session.{World}
use asynchronous_messenger.Server.{received, step, run}
use asynchronous_messenger.Server.Answers.{answered}
use asynchronous_messenger.Server.Answers.Lines.{received_answered, questions, asks_of}
use asynchronous_messenger.Server.Answers.Buffers.{read_buffer}
use asynchronous_messenger.Client.Transport.{RoundTrips, Dumped}
use asynchronous_messenger.Wire.{newline, find_newline}
use asynchronous_messenger.Wire.Frames.{lines, split, split-lines, has_newline}
use asynchronous_messenger.Programs.SimpleTest.{Talk, on, Meanwhile, read_line, read_response}
use asynchronous_messenger.Programs.SimpleTest.Growth.{Steady, Grown-trans, read-Steady}
use asynchronous_messenger.Programs.SimpleTest.Events.{AllElsewhere, Waits-refl, run-Waits}

find_newline-line :
    (m rest : List ℕ) → has_newline m ≡ false → find_newline (m ++ newline ∷ rest) ≡ some (length m)
unfolding find_newline
find_newline-line [] rest h = refl
find_newline-line (c ∷ m) rest h = ground (arith, find_newline-line m rest)

take-line : (m rest : List ℕ) → take (length m) (m ++ rest) ≡ m
take-line [] rest = refl
take-line (c ∷ m) rest = ap (λ (l : List ℕ). c ∷ l) (take-line m rest)

pub drop-line : (m rest : List ℕ) → drop (length m) (m ++ rest) ≡ rest
drop-line [] rest = refl
drop-line (c ∷ m) rest = drop-line m rest

drop-newline : (m rest : List ℕ) → drop (suc (length m)) (m ++ newline ∷ rest) ≡ rest
drop-newline [] rest = refl
drop-newline (c ∷ m) rest = drop-newline m rest

-- A whole line is read, and the rest is left.
read_line-line :
    (m rest : List ℕ) → has_newline m ≡ false → read_line (m ++ newline ∷ rest) ≡ some (m, rest)
unfolding read_line
read_line-line m rest h =
    rw (find_newline-line m rest h, read_line)
      (rw (take-line m (newline ∷ rest), drop-newline m rest) refl)

module _ {Json : Type 0} (lib : JsonLib Json) (trips : RoundTrips lib) where
  -- What has not been read yet is lines of messages.
  pub record Ready (t : Talk Json) : Type 0 where
    pub messages : List Json
    pub texts : List (List ℕ)
    pub unread : t.unread ≡ lines texts
    pub dumped : Dumped lib messages texts

  -- If there is one, it is read and printed.
  pub record Reading (m : Json) (ms : List Json) (t t' : Talk Json) : Type 0 where
    pub goes_on : read_response lib t ≡ on t'
    pub printed : t'.printed ≡ t.printed ++ m ∷ []
    pub world : t'.world ≡ t.world
    pub ready : Ready t'
    pub behind : ready.messages ≡ ms

  pub read-Ready :
      (t : Talk Json) (m : Json) (ms : List Json) (x : List ℕ) (xs : List (List ℕ))
      → t.unread ≡ lines (x ∷ xs)
      → lib.dump m ≡ some x
      → Dumped lib ms xs
      → (t' : Talk Json) × Reading m ms t t'
  unfolding read_response
  read-Ready t m ms x xs unread e ds = (
    record t { unread = lines xs; printed = t.printed ++ m ∷ [] },
    record {
      goes_on =
          rw
            (
              ap read_line unread ∙ read_line-line x (lines xs) (trips.one_line m x e),
              read_response,
            )
            ((rw (trips.parses m x e, read_response) (rw (e, read_response) refl)));
      printed = refl;
      world = refl;
      ready = record { messages = ms; texts = xs; unread = refl; dumped = ds };
      behind = refl;
    },
  )

  -- The session of the program: it is open, and everything that it has received is handled.
  pub record Open (k : ℕ) (w : World Json) : Type 0 where
    pub open_yet : (w.sessions k).closing ≡ false
    pub known : k < w.next_session
    pub quiet : (w.sessions k).message_buffer ≡ []

  module _ (laws : JsonLaws lib) (serializes : Serializes lib) (hasher : String → ℕ) (k : ℕ) where
    -- What has become of the session when a request was handled.
    pub record Served (u w : World Json) : Type 0 where
      pub steady : Steady lib k u w
      pub quiet : (w.sessions k).message_buffer ≡ []
      pub told : answered lib w k ≡ answered lib u k + 1

    one_question :
        (q : Json) (line : List ℕ)
        → lib.dump q ≡ some line
        → asks_of lib q ≡ true
        → questions lib (line ∷ []) ≡ 1
    one_question q line e asking =
        rw (trips.filled q line e)
          (rw (trips.parses q line e, asks_of) (ap (λ (b : Bool). (if b then 1 else 0) + 0) asking))

    line_handled :
        (env : Env) (q : Json) (line : List ℕ) (w : World Json)
        → lib.dump q ≡ some line
        → asks_of lib q ≡ true
        → Open k w
        → Served w (step lib hasher env (received k (line ++ newline ∷ [])) w)
    line_handled env q line w e asking o =
        let cut : split ((w.sessions k).message_buffer ++ (line ++ newline ∷ []))
            ≡ (line ∷ [], []) =
          rw o.quiet (split-lines (line ∷ []) (trips.one_line q line e, tt)) in
        let start = Waits-refl lib k w o.open_yet o.known in
        let self = (nat_eq.same_iff k k).1 refl in
        record {
          steady = read-Steady lib hasher env k k (line ++ newline ∷ []) w w start.steady;
          quiet =
              (read_buffer lib hasher env k (line ++ newline ∷ []) w k).0
              ∙ if_true (k == k) _ _ self
              ∙ ap (λ (s : List (List ℕ) × List ℕ). s.1) cut;
          told =
              received_answered lib laws serializes hasher env (line ++ newline ∷ []) k w k
              ∙ ap (λ (n : ℕ). answered lib w k + n)
                  (if_true (k == k) _ _ self
                    ∙ ap (λ (s : List (List ℕ) × List ℕ). questions lib s.0) cut
                    ∙ one_question q line e asking);
        }

    -- The events of others before the request is handled, and after it.
    others_before :
        (m : Meanwhile) (u : World Json)
        → AllElsewhere k m.before
        → Open k u
        → Open k (run lib hasher m.before u)
          × Steady lib k u (run lib hasher m.before u)
          × (answered lib (run lib hasher m.before u) k ≡ answered lib u k)
    others_before m u els o =
        let h =
          run-Waits lib laws serializes hasher k u m.before u els
            (Waits-refl lib k u o.open_yet o.known) in
        (
          record {
            open_yet = h.steady.open_yet;
            known = h.steady.known;
            quiet = h.buffer ∙ o.quiet;
          },
          h.steady,
          h.told,
        )

    Steady-trans : (u v w : World Json) → Steady lib k u v → Steady lib k v w → Steady lib k u w
    Steady-trans u v w g h = record {
      open_yet = h.open_yet;
      known = h.known;
      grown = Grown-trans lib k u v w g.grown h.grown;
    }

    unfoldable pub asked : Meanwhile → List ℕ → World Json → World Json
    asked m line u =
        run lib hasher m.after
          (step lib hasher m.env (received k (line ++ newline ∷ [])) (run lib hasher m.before u))

    pub asked-Served :
        (m : Meanwhile) (q : Json) (line : List ℕ) (u : World Json)
        → lib.dump q ≡ some line
        → asks_of lib q ≡ true
        → AllElsewhere k m.before
        → AllElsewhere k m.after
        → Open k u
        → Served u (asked m line u)
    unfolding asked
    asked-Served m q line u e asking before after o =
        let (o1, steady1, told1) = others_before m u before o in
        let v1 = run lib hasher m.before u in
        let v2 = step lib hasher m.env (received k (line ++ newline ∷ [])) v1 in
        let s2 = line_handled m.env q line v1 e asking o1 in
        let w3 =
          run-Waits lib laws serializes hasher k v2 m.after v2 after
            (Waits-refl lib k v2 s2.steady.open_yet s2.steady.known) in
        record {
          steady = Steady-trans u v1 _ steady1 (Steady-trans v1 v2 _ s2.steady w3.steady);
          quiet = w3.buffer ∙ s2.quiet;
          told = w3.told ∙ s2.told ∙ ap (λ (n : ℕ). n + 1) told1;
        }
