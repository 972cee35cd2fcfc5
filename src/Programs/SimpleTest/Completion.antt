-- ===== src/Programs/SimpleTest/Completion.antt =====
-- client/simple_test_client.cpp to its end.
use asynchronous_messenger.Base.{
  ℕ, ◌+◌, String, true, ◌≡◌, ◌≢◌, refl, ap, ◌∙◌, sym, some, List, [], ◌∷◌, ◌++◌, nat_eq, arith,
  length, length-append, drop, append-nil, append_assoc, string_eq, subst,
}
use asynchronous_messenger.Json.{JsonLib, JsonLaws, Serializes, Value, text}
use asynchronous_messenger.Json.Objects.{has, text_at}
use asynchronous_messenger.Env.{Env}
use asynchronous_messenger.Session.{World, set_session}
use asynchronous_messenger.Server.{accepted, step}
use asynchronous_messenger.Server.Answers.{answered, answers}
use asynchronous_messenger.Server.Answers.Lines.{asks_of}
use asynchronous_messenger.Client.Transport.{RoundTrips, Dumped, nothing, more}
use asynchronous_messenger.Wire.{newline}
use asynchronous_messenger.Wire.Frames.{lines}
use asynchronous_messenger.Programs.SimpleTest.{
  Talk, on, Meanwhile, serve, exchange, simple_test, register_msg, login_msg, message_msg,
  exit_status,
}
use asynchronous_messenger.Programs.SimpleTest.Growth.{Grown, Dumped-append, lines_append}
use asynchronous_messenger.Programs.SimpleTest.Events.{AllElsewhere}
use asynchronous_messenger.Programs.SimpleTest.Handling.{
  Ready, Open, read-Ready, asked, asked-Served, drop-line,
}

append-ne-nil {ℓ} : {A : Type ℓ} (xs ys : List A) → ys ≢ [] → xs ++ ys ≢ []
append-ne-nil [] ys h = h
append-ne-nil (x ∷ xs) ys h = λ e. ground (arith, e)

module _ {Json : Type 0} (lib : JsonLib Json) where
  -- The first of some messages, with its text.
  record First (ms : List Json) (us : List (List ℕ)) : Type 0 where
    message : Json
    later : List Json
    text : List ℕ
    texts : List (List ℕ)
    all : us ≡ text ∷ texts
    whole : ms ≡ message ∷ later
    is_text : lib.dump message ≡ some text
    dumped : Dumped lib later texts

  First-of : (ms : List Json) (us : List (List ℕ)) → Dumped lib ms us → ms ≢ [] → First ms us
  First-of [] us d h = absurd (h refl)
  First-of (m ∷ ms) [] d h = elim d [ ]
  First-of (m ∷ ms) (u ∷ us) (more e d) h = record {
    message = m;
    later = ms;
    text = u;
    texts = us;
    all = refl;
    whole = refl;
    is_text = e;
    dumped = d;
  }

  -- A session that has answered has sent something.
  answered-ne-nil :
      (k : ℕ) (u w : World Json) (g : Grown lib k u w)
      → answered lib w k ≡ answered lib u k + 1
      → g.messages ≢ []
  answered-ne-nil k u w g told = λ e.
      let same : answered lib w k ≡ answered lib u k =
        ap (answers lib) (g.sent ∙ rw e (append-nil (u.sessions k).sent)) in
      omega (arith, same, told)

  module _ (trips : RoundTrips lib) (laws : JsonLaws lib) (serializes : Serializes lib)
      (hasher : String → ℕ) (k : ℕ) where
    -- The program between two steps, when it has printed so many answers.
    record Going (n : ℕ) (t : Talk Json) : Type 0 where
      ready : Ready lib trips t
      session : Open lib trips k t.world
      printed : length t.printed ≡ n
      told : answered lib t.world k ≡ n
      sent : (t.world.sessions k).sent ≡ t.printed ++ ready.messages

    exchange-Going :
        (n : ℕ) (q : Json) (m : Meanwhile) (t : Talk Json)
        → asks_of lib q ≡ true
        → AllElsewhere k m.before
        → AllElsewhere k m.after
        → Going n t
        → (t' : Talk Json) × (exchange lib hasher k q m t ≡ on t') × Going (n + 1) t'
    unfolding exchange asked
    exchange-Going n q m t asking before after g =
        let (line, e) = serializes.dumps q in
        let served =
          asked-Served lib trips laws serializes hasher k m q line t.world e asking before after
            g.session in
        let w = asked lib trips laws serializes hasher k m line t.world in
        let grown = served.steady.grown in
        let unread' : t.unread ++ drop (length (t.world.sessions k).wire) (w.sessions k).wire
            ≡ lines (g.ready.texts ++ grown.texts) =
          ap (λ (l : List ℕ). t.unread ++ drop (length (t.world.sessions k).wire) l) grown.wire
          ∙ ap (λ (l : List ℕ). t.unread ++ l)
              (drop-line (t.world.sessions k).wire (lines grown.texts))
          ∙ ap (λ (l : List ℕ). l ++ lines grown.texts) g.ready.unread
          ∙ sym (lines_append g.ready.texts grown.texts) in
        let first =
          First-of (g.ready.messages ++ grown.messages) (g.ready.texts ++ grown.texts)
            (Dumped-append lib g.ready.messages grown.messages g.ready.texts grown.texts
              g.ready.dumped grown.dumped)
            (append-ne-nil g.ready.messages grown.messages
              (answered-ne-nil k t.world w grown served.told)) in
        let (t', read) =
          read-Ready lib trips (serve lib hasher k (line ++ newline ∷ []) m t) first.message
            first.later first.text first.texts (unread' ∙ ap lines first.all) first.is_text
            first.dumped in
        (
          t',
          rw (e, exchange) read.goes_on,
          record {
            ready = read.ready;
            session =
                subst (λ v. Open lib trips k v) (sym read.world)
                  (record {
                    open_yet = served.steady.open_yet;
                    known = served.steady.known;
                    quiet = served.quiet;
                  });
            printed =
                ap length read.printed
                ∙ length-append t.printed (first.message ∷ [])
                ∙ ap (λ (i : ℕ). i + 1) g.printed;
            told =
                ap (λ (v : World Json). answered lib v k) read.world
                ∙ served.told
                ∙ ap (λ (i : ℕ). i + 1) g.told;
            sent =
                ap (λ (v : World Json). (v.sessions k).sent) read.world
                ∙ grown.sent
                ∙ ap (λ (l : List Json). l ++ grown.messages) g.sent
                ∙ append_assoc t.printed g.ready.messages grown.messages
                ∙ ap (λ (l : List Json). t.printed ++ l) first.whole
                ∙ sym (append_assoc t.printed (first.message ∷ []) first.later)
                ∙ ap (λ (l : List Json). l ++ first.later) (sym read.printed)
                ∙ ap (λ (l : List Json). t'.printed ++ l) (sym read.behind);
          },
        )

  connected-Going :
      (trips : RoundTrips lib) (laws : JsonLaws lib) (serializes : Serializes lib)
      (hasher : String → ℕ) (env : Env) (w : World Json)
      → Going trips laws serializes hasher w.next_session 0
          (record { world = step lib hasher env accepted w; unread = []; printed = [] })
  unfolding step set_session answers
  connected-Going trips laws serializes hasher env w =
      let self = (nat_eq.same_iff w.next_session w.next_session).1 refl in
      record {
        ready = record { messages = []; texts = []; unread = refl; dumped = nothing };
        session = record { open_yet = rw self refl; known = omega arith; quiet = rw self refl };
        printed = refl;
        told = rw self refl;
        sent = rw self refl;
      }

  register-asks : (laws : JsonLaws lib) → asks_of lib (register_msg lib) ≡ true
  register-asks laws =
      let fs : List (String × Value) =
        ("password", text "testpassword")
        ∷ ("email", text "test1@example.com")
        ∷ ("username", text "testuser1")
        ∷ ("type", text "register")
        ∷ [] in
      rw (has lib laws fs "type", asks_of) (rw (text_at lib laws fs "type", asks_of) refl)

  login-asks : (laws : JsonLaws lib) → asks_of lib (login_msg lib) ≡ true
  login-asks laws =
      let fs : List (String × Value) =
        ("password", text "testpassword")
        ∷ ("username", text "testuser1")
        ∷ ("type", text "login")
        ∷ [] in
      rw (has lib laws fs "type", asks_of) (rw (text_at lib laws fs "type", asks_of) refl)

  message-asks : (laws : JsonLaws lib) → asks_of lib (message_msg lib) ≡ true
  message-asks laws =
      let fs : List (String × Value) =
        ("content", text "Hello from simple test client!")
        ∷ ("to", text "testuser2")
        ∷ ("type", text "message")
        ∷ [] in
      rw (has lib laws fs "type", asks_of) (rw (text_at lib laws fs "type", asks_of) refl)

  abbrev pub Undisturbed : ℕ → Meanwhile → Type 0
  Undisturbed k m = AllElsewhere k m.before × AllElsewhere k m.after

  -- The program of simple_test_client.cpp, when it has a connection, comes to its end and
  -- returns 0, whatever other connections do in between and whether or not its user can
  -- register and log in, if every message can be serialized, to a text of one line that parses
  -- to the message again: it prints three messages, the first three that the server has sent
  -- it, and the server has answered three times by then.
  pub simple_test_completes :
      (hasher : String → ℕ) (env : Env) (m1 m2 m3 : Meanwhile) (w : World Json)
      → RoundTrips lib
      → JsonLaws lib
      → Serializes lib
      → Undisturbed w.next_session m1
      → Undisturbed w.next_session m2
      → Undisturbed w.next_session m3
      → (t : Talk Json) × (rest : List Json) × (simple_test lib hasher env m1 m2 m3 w ≡ on t)
        × (exit_status true (simple_test lib hasher env m1 m2 m3 w) ≡ some 0)
        × (length t.printed ≡ 3)
        × ((t.world.sessions w.next_session).sent ≡ t.printed ++ rest)
        × (answers lib (t.world.sessions w.next_session).sent ≡ 3)
  unfolding simple_test exit_status
  simple_test_completes hasher env m1 m2 m3 w trips laws serializes u1 u2 u3 =
      let k = w.next_session in
      let go = exchange-Going trips laws serializes hasher k in
      let (t1, e1, g1) =
        go 0 (register_msg lib) m1 _ (register-asks laws) u1.0 u1.1
          (connected-Going trips laws serializes hasher env w) in
      let (t2, e2, g2) = go 1 (login_msg lib) m2 t1 (login-asks laws) u2.0 u2.1 g1 in
      let (t3, e3, g3) = go 2 (message_msg lib) m3 t2 (message-asks laws) u3.0 u3.1 g2 in
      let ends : simple_test lib hasher env m1 m2 m3 w ≡ on t3 = rw e1 (rw e2 (rw e3 refl)) in
      (t3, g3.ready.messages, ends, ap (exit_status true) ends, g3.printed, g3.sent, g3.told)
