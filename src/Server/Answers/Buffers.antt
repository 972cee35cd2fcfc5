-- ===== src/Server/Answers/Buffers.antt =====
-- The buffers of the sessions of server/session.cpp while a request is handled.
use asynchronous_messenger.Base.{
  ℕ, String, ◌≡◌, refl, ◌∙◌, List, ◌++◌, ◌==◌, nat_eq, if◌then◌else◌, Bool-cases, inl, inr,
}
use asynchronous_messenger.Json.{JsonLib}
use asynchronous_messenger.Env.{Env}
use asynchronous_messenger.Session.{Session, World, set_authenticated, set_session}
use asynchronous_messenger.Session.Store.{set_session-keeps, send-message_buffer, send-next_session}
use asynchronous_messenger.JsonParser.{bind_session, parse_message}
use asynchronous_messenger.Server.{received, step}
use asynchronous_messenger.Server.Induction.{Kept, parse_message_keeps}
use asynchronous_messenger.Server.Invariant.{do_read-handled}
use asynchronous_messenger.Wire.Frames.{split, handle_all_keeps}

-- No request touches the buffer of a session, or accepts one.
abbrev Untouched : {Json : Type 0} → World Json → World Json → Type 0
Untouched u v =
    ((k : ℕ) → (v.sessions k).message_buffer ≡ (u.sessions k).message_buffer)
    × (v.next_session ≡ u.next_session)

module _ {Json : Type 0} (lib : JsonLib Json) (hasher : String → ℕ) (env : Env) where
  request-Untouched : (u : World Json) (self : ℕ) → Kept lib hasher env self (Untouched u)
  unfolding bind_session set_authenticated
  request-Untouched u self = record {
    on_send = λ sid m w to composed h.
        (λ k. send-message_buffer lib sid k m w ∙ h.0 k, send-next_session lib sid m w ∙ h.1);
    on_register = λ _ e p w h. h;
    on_store = λ s r c d w h. h;
    on_delete = λ _ w h. h;
    on_bind = λ i name p w e h. (
      λ k. set_session-keeps (λ (t : Session Json). t.message_buffer) self k _ w refl ∙ h.0 k,
      h.1,
    );
  }

  -- The buffers after a read.
  pub read_buffer :
      (sid : ℕ) (chunk : List ℕ) (w : World Json) (k : ℕ)
      → let w' = step lib hasher env (received sid chunk) w in
        ((w'.sessions k).message_buffer ≡ (
          if sid == k
          then (split ((w.sessions sid).message_buffer ++ chunk)).1
          else (w.sessions k).message_buffer))
        × (w'.next_session ≡ w.next_session)
  unfolding step set_session
  read_buffer sid chunk w k =
      let texts = split ((w.sessions sid).message_buffer ++ chunk) in
      let same =
        handle_all_keeps (Untouched w) (λ m. parse_message lib hasher env m sid)
          (λ m v. parse_message_keeps lib hasher env sid (request-Untouched w sid) m v) w texts.0
          (λ i. refl, refl) in
      rw (do_read-handled lib hasher env sid chunk w) (elim (Bool-cases (sid == k)) [
        | inl e ↦ rw e (refl, same.1)
        | inr e ↦ rw e (same.0 k, same.1)
      ])
