-- ===== src/Programs/SimpleTest/Events.antt =====
-- The events of other connections (server/server.cpp), as an open session sees them.
use asynchronous_messenger.Base.{
  ℕ, ◌<◌, ◌≤◌, String, true, false, ◌≡◌, refl, ap, ◌∙◌, List, [], ◌∷◌, ◌==◌, nat_eq, if_false,
  arith, if_cases,
}
use asynchronous_messenger.Json.{JsonLib, JsonLaws, Serializes}
use asynchronous_messenger.Env.{Env}
use asynchronous_messenger.Session.{Session, World, set_session, close}
use asynchronous_messenger.Session.Store.{set_session-other}
use asynchronous_messenger.Server.{Event, accepted, received, read_failed, write_failed, step, run}
use asynchronous_messenger.Server.Answers.{answered, answers}
use asynchronous_messenger.Server.Answers.Lines.{received_answered}
use asynchronous_messenger.Server.Answers.Buffers.{read_buffer}
use asynchronous_messenger.Programs.SimpleTest.Growth.{
  Steady, Grown-refl, Grown-same, read-Steady, not_same,
}

-- An event of another connection than k.
abbrev pub Elsewhere : ℕ → Event → Type 0
Elsewhere k accepted = Unit {0}
Elsewhere k (received sid chunk) = (sid == k) ≡ false
Elsewhere k (read_failed sid) = (sid == k) ≡ false
Elsewhere k (write_failed sid) = (sid == k) ≡ false

abbrev pub AllElsewhere : ℕ → List (Env × Event) → Type 0
AllElsewhere k [] = Unit {0}
AllElsewhere k ((env, e) ∷ es) = Elsewhere k e × AllElsewhere k es

module _ {Json : Type 0} (lib : JsonLib Json) where
  -- An open session that others may have sent something to; it has answered and read nothing.
  pub record Waits (k : ℕ) (u v : World Json) : Type 0 where
    pub steady : Steady lib k u v
    pub buffer : (v.sessions k).message_buffer ≡ (u.sessions k).message_buffer
    pub told : answered lib v k ≡ answered lib u k

  pub Waits-refl :
      (k : ℕ) (u : World Json) → (u.sessions k).closing ≡ false → k < u.next_session → Waits k u u
  Waits-refl k u open_yet known = record {
    steady = record { open_yet = open_yet; known = known; grown = Grown-refl lib k u };
    buffer = refl;
    told = refl;
  }

  -- A session that is as it was.
  same-Waits :
      (k : ℕ) (u v w : World Json)
      → w.sessions k ≡ v.sessions k
      → v.next_session ≤ w.next_session
      → Waits k u v
      → Waits k u w
  same-Waits k u v w there counted h = record {
    steady = record {
      open_yet = ap (λ (t : Session Json). t.closing) there ∙ h.steady.open_yet;
      known = omega (arith, h.steady.known);
      grown =
          Grown-same lib k u v w (ap (λ (t : Session Json). t.sent) there)
            (ap (λ (t : Session Json). t.wire) there) h.steady.grown;
    };
    buffer = ap (λ (t : Session Json). t.message_buffer) there ∙ h.buffer;
    told = ap (λ (t : Session Json). answers lib t.sent) there ∙ h.told;
  }

  close-Waits :
      (sid k : ℕ) (u w : World Json) → (sid == k) ≡ false → Waits k u w → Waits k u (close sid w)
  unfolding close
  close-Waits sid k u w e h =
      let s = record (w.sessions sid) { closing = true } in
      let there = set_session-other sid k s w (not_same e) in
      if_cases (Waits k u) (w.sessions sid).closing _ _ (λ _. h)
        λ _.
          if_cases (Waits k u) (w.sessions sid).authenticated _ _
            (λ _. same-Waits k u w _ there (omega arith) h)
            (λ _. same-Waits k u w _ there (omega arith) h)

  module _ (laws : JsonLaws lib) (serializes : Serializes lib) (hasher : String → ℕ) (k : ℕ)
      (u : World Json) where
    event-Waits :
        (env : Env) (e : Event) (w : World Json)
        → Elsewhere k e
        → Waits k u w
        → Waits k u (step lib hasher env e w)
    unfolding step set_session
    event-Waits env accepted w els h =
        same-Waits k u w _ (if_false (w.next_session == k) _ _ (ground (arith, h.steady.known)))
          (omega arith) h
    event-Waits env (received sid chunk) w els h = record {
      steady = read-Steady lib hasher env k sid chunk u w h.steady;
      buffer = (read_buffer lib hasher env sid chunk w k).0 ∙ rw els h.buffer;
      told =
          received_answered lib laws serializes hasher env chunk sid w k
          ∙ rw els (omega (arith, h.told));
    }
    event-Waits env (read_failed sid) w els h = close-Waits sid k u w els h
    event-Waits env (write_failed sid) w els h = close-Waits sid k u w els h

    pub run-Waits :
        (es : List (Env × Event)) (w : World Json)
        → AllElsewhere k es
        → Waits k u w
        → Waits k u (run lib hasher es w)
    unfolding run
    run-Waits [] w els h = h
    run-Waits ((env, e) ∷ es) w els h = run-Waits es _ els.1 (event-Waits env e w els.0 h)
