-- ===== src/Server/Answers/Ledger.antt =====
-- The requests and the answers of a session of server/session.cpp, over all that the server does.
use asynchronous_messenger.Base.{
  ℕ, ◌+◌, ◌<◌, ◌≤◌, String, true, false, ◌≡◌, refl, ap, ◌∙◌, some, List, [], ◌++◌, ◌==◌, nat_eq,
  if◌then◌else◌, arith, Bool-cases, Option-cases, inl, inr, if_cases, subst, sym, some_inj, if_true,
  append-nil,
}
use asynchronous_messenger.Json.{JsonLib, JsonLaws, Serializes}
use asynchronous_messenger.Env.{Env}
use asynchronous_messenger.Database.{DbFile, initialize}
use asynchronous_messenger.Session.{Session, World, new_session, set_session, close}
use asynchronous_messenger.Session.Store.{set_session-keeps}
use asynchronous_messenger.Server.{
  Event, accepted, received, read_failed, write_failed, step, start_server,
}
use asynchronous_messenger.Server.Invariant.{Possible}
use asynchronous_messenger.Server.Reach.{Reach, started, next}
use asynchronous_messenger.Server.Answers.{answered, answers}
use asynchronous_messenger.Server.Answers.Lines.{questions, questions-append, received_answered}
use asynchronous_messenger.Wire.Frames.{split, split-append}
use asynchronous_messenger.Server.Answers.Buffers.{read_buffer}

-- The bytes of an event that are for session k.
abbrev arriving : Event → ℕ → List ℕ
arriving accepted k = []
arriving (received sid chunk) k = if sid == k then chunk else []
arriving (read_failed sid) k = []
arriving (write_failed sid) k = []

-- What a session has received, what it has answered, and what is left in its buffer.
record Account {Json : Type 0} (lib : JsonLib Json) (w : World Json) (bytes : List ℕ) (k : ℕ)
    : Type 0 where
  paid : answered lib w k ≡ questions lib (split bytes).0
  left : (w.sessions k).message_buffer ≡ (split bytes).1
  unborn : w.next_session ≤ k → bytes ≡ []

module _ {Json : Type 0} (lib : JsonLib Json) where
  accept-Account :
      (w : World Json) (bytes : List ℕ) (k : ℕ)
      → Account lib w bytes k
      → Account lib
          (record (set_session w.next_session new_session w) { next_session = w.next_session + 1 })
          bytes
          k
  unfolding set_session split answers
  accept-Account w bytes k h = elim (Bool-cases (w.next_session == k)) [
    | inl e ↦
        let none_yet = h.unborn (omega (arith, (nat_eq.same_iff w.next_session k).0 e)) in
        record {
          paid = rw (e, none_yet) refl;
          left = rw (e, none_yet) refl;
          unborn = λ _. none_yet;
        }
    | inr e ↦ record {
      paid = rw e h.paid;
      left = rw e h.left;
      unborn = λ le. h.unborn (omega arith);
    }
  ]

  -- A change of a session that leaves the messages and the buffer.
  change-Account :
      (sid : ℕ) (s : Session Json) (w u : World Json) (bytes : List ℕ) (k : ℕ)
      → s.sent ≡ (w.sessions sid).sent
      → s.message_buffer ≡ (w.sessions sid).message_buffer
      → u.sessions ≡ (set_session sid s w).sessions
      → u.next_session ≡ w.next_session
      → Account lib w bytes k
      → Account lib u bytes k
  change-Account sid s w u bytes k sent buffer same counted h = record {
    paid =
        ap (λ (f : ℕ → Session Json). answers lib (f k).sent) same
        ∙ set_session-keeps (λ (t : Session Json). answers lib t.sent) sid k s w
            (ap (answers lib) sent)
        ∙ h.paid;
    left =
        ap (λ (f : ℕ → Session Json). (f k).message_buffer) same
        ∙ set_session-keeps (λ (t : Session Json). t.message_buffer) sid k s w buffer
        ∙ h.left;
    unborn = λ le. h.unborn (omega (arith, counted));
  }

  close-Account :
      (sid : ℕ) (w : World Json) (bytes : List ℕ) (k : ℕ)
      → Account lib w bytes k
      → Account lib (close sid w) bytes k
  unfolding close set_session
  close-Account sid w bytes k h =
      let P : World Json → Type 0 = λ u. Account lib u bytes k in
      let s = record (w.sessions sid) { closing = true } in
      if_cases P (w.sessions sid).closing _ _ (λ _. h)
        λ _.
          if_cases P (w.sessions sid).authenticated _ _
            (λ _. change-Account sid s w _ bytes k refl refl refl refl h)
            (λ _. change-Account sid s w _ bytes k refl refl refl refl h)

  module _ (laws : JsonLaws lib) (serializes : Serializes lib) (hasher : String → ℕ)
      (env : Env) where
    read_own-Account :
        (sid : ℕ) (chunk : List ℕ) (w : World Json) (bytes : List ℕ)
        → sid < w.next_session
        → Account lib w bytes sid
        → Account lib (step lib hasher env (received sid chunk) w) (bytes ++ chunk) sid
    read_own-Account sid chunk w bytes known h =
        let self = (nat_eq.same_iff sid sid).1 refl in
        let answer = received_answered lib laws serializes hasher env chunk sid w sid in
        let buffer = read_buffer lib hasher env sid chunk w sid in
        record {
          paid = rw (split-append bytes chunk) (
              answer
              ∙ ap (λ (n : ℕ). answered lib w sid + n) (if_true (sid == sid) _ _ self)
              ∙ ap (λ (b : List ℕ). answered lib w sid + questions lib (split (b ++ chunk)).0)
                  h.left
              ∙ ap (λ (n : ℕ). n + questions lib (split ((split bytes).1 ++ chunk)).0) h.paid
              ∙ sym (questions-append lib (split bytes).0 (split ((split bytes).1 ++ chunk)).0));
          left = rw (split-append bytes chunk) (
              buffer.0
              ∙ if_true (sid == sid) _ _ self
              ∙ ap (λ (b : List ℕ). (split (b ++ chunk)).1) h.left);
          unborn = λ le. absurd (omega (arith, buffer.1));
        }

    read_other-Account :
        (sid : ℕ) (chunk : List ℕ) (w : World Json) (bytes : List ℕ) (k : ℕ)
        → (sid == k) ≡ false
        → Account lib w bytes k
        → Account lib (step lib hasher env (received sid chunk) w) bytes k
    read_other-Account sid chunk w bytes k e h =
        let answer = received_answered lib laws serializes hasher env chunk sid w k in
        let buffer = read_buffer lib hasher env sid chunk w k in
        record {
          paid = answer ∙ rw e (omega (arith, h.paid));
          left = buffer.0 ∙ rw e h.left;
          unborn = λ le. h.unborn (omega (arith, buffer.1));
        }

  -- All the bytes that a session has received.
  unfoldable pub heard :
      {hasher : String → ℕ} {file : DbFile} {w : World Json} → Reach lib hasher file w → ℕ → List ℕ
  heard (started env h) k = []
  heard (next env e r p) k = heard r k ++ arriving e k

  module _ (laws : JsonLaws lib) (serializes : Serializes lib) (hasher : String → ℕ)
      (file : DbFile) where
    step-Account :
        (env : Env) (e : Event) (w : World Json) (bytes : List ℕ) (k : ℕ)
        → Possible w e
        → Account lib w bytes k
        → Account lib (step lib hasher env e w) (bytes ++ arriving e k) k
    unfolding step
    step-Account env accepted w bytes k p h = rw (append-nil bytes) (accept-Account w bytes k h)
    step-Account env (received sid chunk) w bytes k p h = elim (Bool-cases (sid == k)) [
      | inl e ↦ rw e (
          subst (λ i. Account lib (step lib hasher env (received sid chunk) w) (bytes ++ chunk) i)
            ((nat_eq.same_iff sid k).0 e)
            (read_own-Account laws serializes hasher env sid chunk w bytes p
              (subst (λ i. Account lib w bytes i) (sym ((nat_eq.same_iff sid k).0 e)) h)))
      | inr e ↦
          rw (e, append-nil bytes)
            (read_other-Account laws serializes hasher env sid chunk w bytes k e h)
    ]
    step-Account env (read_failed sid) w bytes k p h =
        rw (append-nil bytes) (close-Account sid w bytes k h)
    step-Account env (write_failed sid) w bytes k p h =
        rw (append-nil bytes) (close-Account sid w bytes k h)

    start-Account :
        (env : Env) (w : World Json) (k : ℕ) → start_server env file ≡ some w → Account lib w [] k
    unfolding start_server split answers
    start-Account env w k h = elim (Option-cases (initialize env file)) [
      | inl e ↦ absurd (ground (arith, e))
      | inr (db, e) ↦
          let made = some_inj (rw (e, start_server) at h) in
          subst (λ v. Account lib v [] k) made
            (record { paid = refl; left = refl; unborn = λ _. refl })
    ]

    Reach-Account :
        (w : World Json) (r : Reach lib hasher file w) (k : ℕ) → Account lib w (heard r k) k
    unfolding heard
    Reach-Account w (started env h) k = start-Account env w k h
    Reach-Account w (next {w = v} env e r p) k =
        step-Account env e v (heard r k) k p (Reach-Account v r k)

    -- In every state that the server can come to, however the bytes were cut into reads and
    -- whatever other clients do, if every message can be serialized: each session has been
    -- sent exactly as many answers, messages of a type that ends in "_response", as it has
    -- received lines, without those that are empty and those that parse to a message of type
    -- "typing"; and its buffer has the bytes behind the last of the newlines.
    pub answered_once :
        (w : World Json) (r : Reach lib hasher file w) (k : ℕ)
        → (answers lib (w.sessions k).sent ≡ questions lib (split (heard r k)).0)
          × ((w.sessions k).message_buffer ≡ (split (heard r k)).1)
    answered_once w r k = let account = Reach-Account w r k in (account.paid, account.left)
