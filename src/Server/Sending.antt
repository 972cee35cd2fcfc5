-- ===== src/Server/Sending.antt =====
-- What the sessions of server/session.cpp send, over all that the server does.
use asynchronous_messenger.Base.{
  ℕ, String, ◌≡◌, subst, some, List, ◌++◌, ◌==◌, nat_eq, if_cases, arith, Option-cases, some_inj,
  inl, inr, Each, Each-append,
}
use asynchronous_messenger.Json.{JsonLib}
use asynchronous_messenger.Env.{Env}
use asynchronous_messenger.Database.{DbFile, initialize}
use asynchronous_messenger.Session.{
  Session, World, new_session, send, set_session, set_authenticated, close,
}
use asynchronous_messenger.JsonParser.{bind_session, parse_message}
use asynchronous_messenger.Server.{
  Event, accepted, received, read_failed, write_failed, step, start_server, do_read,
}
use asynchronous_messenger.Server.Composed.{Composed}
use asynchronous_messenger.Server.Induction.{Kept, parse_message_keeps}
use asynchronous_messenger.Server.Invariant.{do_read-handled}
use asynchronous_messenger.Server.Reach.{Reach, started, next}
use asynchronous_messenger.Wire.Frames.{split, handle_all_keeps}

module _ {Json : Type 0} (lib : JsonLib Json) where
  -- Each message that a session has sent is one that the server composes.
  abbrev SendsComposed : World Json → Type 0
  SendsComposed w = (k : ℕ) → Each (Composed lib) (w.sessions k).sent

  set_session-SendsComposed :
      (sid : ℕ) (s : Session Json) (w : World Json)
      → Each (Composed lib) s.sent
      → SendsComposed w
      → SendsComposed (set_session sid s w)
  unfolding set_session
  set_session-SendsComposed sid s w new h k =
      if_cases (λ (t : Session Json). Each (Composed lib) t.sent) (sid == k) _ _ (λ _. new)
        (λ _. h k)

  send-SendsComposed :
      (sid : ℕ) (m : Json) (w : World Json)
      → Composed lib m
      → SendsComposed w
      → SendsComposed (send lib sid m w)
  unfolding send
  send-SendsComposed sid m w composed h = elim (Option-cases (lib.dump m)) [
    | inl e ↦ rw (e, send) h
    | inr (b, e) ↦
        rw (e, send)
          (set_session-SendsComposed sid _ w
            (Each-append (Composed lib) (w.sessions sid).sent m (h sid) composed) h)
  ]

  close-SendsComposed : (sid : ℕ) (w : World Json) → SendsComposed w → SendsComposed (close sid w)
  unfolding close
  close-SendsComposed sid w h =
      let closed = set_session-SendsComposed sid _ w (h sid) h in
      if_cases SendsComposed (w.sessions sid).closing _ _ (λ _. h)
        λ _. if_cases SendsComposed (w.sessions sid).authenticated _ _ (λ _. closed) (λ _. closed)

  module _ (hasher : String → ℕ) (env : Env) where
    request-SendsComposed : (self : ℕ) → Kept lib hasher env self SendsComposed
    unfolding bind_session set_authenticated
    request-SendsComposed self = record {
      on_send = λ sid m w to composed h. send-SendsComposed sid m w composed h;
      on_register = λ _ e p w h. h;
      on_store = λ s r c d w h. h;
      on_delete = λ _ w h. h;
      on_bind = λ i name p w e h. set_session-SendsComposed self _ w (h self) h;
    }

    do_read-SendsComposed :
        (sid : ℕ) (chunk : List ℕ) (w : World Json)
        → SendsComposed w
        → SendsComposed (do_read lib hasher env sid chunk w)
    do_read-SendsComposed sid chunk w h =
        let handled =
          handle_all_keeps SendsComposed (λ m. parse_message lib hasher env m sid)
            (λ m v. parse_message_keeps lib hasher env sid (request-SendsComposed sid) m v) w
            (split ((w.sessions sid).message_buffer ++ chunk)).0 h in
        rw (do_read-handled lib hasher env sid chunk w)
          (set_session-SendsComposed sid _ _ (handled sid) handled)

    step-SendsComposed :
        (e : Event) (w : World Json) → SendsComposed w → SendsComposed (step lib hasher env e w)
    unfolding step
    step-SendsComposed accepted w h = set_session-SendsComposed w.next_session new_session w tt h
    step-SendsComposed (received sid chunk) w h = do_read-SendsComposed sid chunk w h
    step-SendsComposed (read_failed sid) w h = close-SendsComposed sid w h
    step-SendsComposed (write_failed sid) w h = close-SendsComposed sid w h

  module _ (hasher : String → ℕ) (file : DbFile) where
    start-SendsComposed :
        (env : Env) (w : World Json) → start_server env file ≡ some w → SendsComposed w
    unfolding start_server
    start-SendsComposed env w h = elim (Option-cases (initialize env file)) [
      | inl e ↦ absurd (ground (arith, e))
      | inr (db, e) ↦
          let made = some_inj (rw (e, start_server) at h) in subst SendsComposed made (λ k. tt)
    ]

    -- Whatever happens, each session has sent only answers, copies of messages that clients
    -- have sent, typing status and stored messages.
    pub Reach-SendsComposed :
        (w : World Json)
        → Reach lib hasher file w
        → (k : ℕ) → Each (Composed lib) (w.sessions k).sent
    Reach-SendsComposed w (started env h) = start-SendsComposed env w h
    Reach-SendsComposed w (next {w = v} env e r p) =
        step-SendsComposed hasher env e v (Reach-SendsComposed v r)
