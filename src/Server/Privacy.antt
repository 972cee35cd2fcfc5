-- ===== src/Server/Privacy.antt =====
-- The sessions that a request of another session (server/json_parser.cpp) may reach.
use asynchronous_messenger.Base.{
  ℕ, String, ◌≡◌, refl, ◌≢◌, ap, ◌∙◌, sym, inl, inr, some, List, arith, ◌==◌, nat_eq, if◌then◌else◌,
  ◌++◌,
}
use asynchronous_messenger.Base.Map.{find}
use asynchronous_messenger.Json.{JsonLib}
use asynchronous_messenger.Env.{Env}
use asynchronous_messenger.UserManager.Sessions.{active-add_session}
use asynchronous_messenger.Session.{Session, World, send, set_session, set_authenticated}
use asynchronous_messenger.Session.Store.{
  send-manager, send-other, authenticated-other, set_session-other,
}
use asynchronous_messenger.JsonParser.{bind_session, parse_message}
use asynchronous_messenger.Server.{received, step}
use asynchronous_messenger.Server.Induction.{Kept, Addressable, parse_message_keeps}
use asynchronous_messenger.Server.Invariant.{do_read-handled}
use asynchronous_messenger.Wire.Frames.{split, handle_all, handle_all_keeps}

-- No user is logged in from the session.
abbrev pub Unregistered : {Json : Type 0} → ℕ → World Json → Type 0
Unregistered k w = (i : ℕ) → find i w.manager.active_sessions ≢ some k

-- The session is as it was, and still nobody's.
abbrev pub Untouched : {Json : Type 0} → ℕ → Session Json → World Json → Type 0
Untouched k s w = (w.sessions k ≡ s) × Unregistered k w

module _ {Json : Type 0} (lib : JsonLib Json) (hasher : String → ℕ) (env : Env) where
  send-Untouched :
      (self k sid : ℕ) (s : Session Json) (m : Json) (w : World Json)
      → self ≢ k
      → Addressable self sid w
      → Untouched k s w
      → Untouched k s (send lib sid m w)
  send-Untouched self k sid s m w ne (inl e) h = (
    send-other lib sid k m w (λ f. ne (sym e ∙ f)) ∙ h.0,
    λ i. rw (send-manager lib sid m w) (h.1 i),
  )
  send-Untouched self k sid s m w ne (inr (j, e)) h = (
    send-other lib sid k m w (λ f. h.1 j (e ∙ ap some f)) ∙ h.0,
    λ i. rw (send-manager lib sid m w) (h.1 i),
  )

  bind_session-Untouched :
      (self k u : ℕ) (s : Session Json) (name : String) (w : World Json)
      → self ≢ k
      → Untouched k s w
      → Untouched k s (bind_session self u name w)
  unfolding bind_session set_authenticated
  bind_session-Untouched self k u s name w ne h = (
    authenticated-other self k u name w ne ∙ h.0,
    λ i e.
        let e' : (if u == i then some self else find i w.manager.active_sessions) ≡ some k =
          sym (active-add_session u i name self w.manager) ∙ e in
        ground (arith, e', h.1 i),
  )

  request-Untouched :
      (self k : ℕ) (s : Session Json) → self ≢ k → Kept lib hasher env self (Untouched k s)
  request-Untouched self k s ne = record {
    on_send = λ sid m w to composed h. send-Untouched self k sid s m w ne to h;
    on_register = λ u e p w h. h;
    on_store = λ i r c d w h. h;
    on_delete = λ u w h. h;
    on_bind = λ u name p w e h. bind_session-Untouched self k u s name w ne h;
  }

  -- Whatever bytes a client sends, a session that is not the client's own and that nobody is
  -- logged in from is sent nothing, keeps its buffer and its state, and is still nobody's.
  pub received_private :
      (sid k : ℕ) (chunk : List ℕ) (w : World Json)
      → sid ≢ k
      → Unregistered k w
      → ((step lib hasher env (received sid chunk) w).sessions k ≡ w.sessions k)
        × Unregistered k (step lib hasher env (received sid chunk) w)
  unfolding step
  received_private sid k chunk w ne h =
      let texts = split ((w.sessions sid).message_buffer ++ chunk) in
      let done : Untouched k (w.sessions k)
          (handle_all (λ m. parse_message lib hasher env m sid) w texts.0) =
        handle_all_keeps (Untouched k (w.sessions k)) (λ m. parse_message lib hasher env m sid)
          (λ m v.
            parse_message_keeps lib hasher env sid (request-Untouched sid k (w.sessions k) ne) m v)
          w texts.0 (refl, h) in
      rw (do_read-handled lib hasher env sid chunk w)
        (set_session-other sid k _ _ ne ∙ done.0, unfold set_session in done.1)
