-- ===== src/Session/Store.antt =====
-- The fields that Session::send and the other operations of server/session.cpp leave alone.
use asynchronous_messenger.Base.{
  ℕ, String, ◌≡◌, refl, ◌≢◌, none, some, List, [], ◌∷◌, ◌++◌, arith, nat_eq, Option-cases,
  Bool-cases, inl, inr, ◌==◌, ap, ◌∙◌, false, if_true, if_false, append_assoc,
}
use asynchronous_messenger.Json.{JsonLib}
use asynchronous_messenger.Wire.{newline}
use asynchronous_messenger.Session.{Session, World, send, set_session, set_authenticated}

module _ {Json : Type 0} (lib : JsonLib Json) where
  pub send-db : (sid : ℕ) (m : Json) (w : World Json) → (send lib sid m w).db ≡ w.db
  unfolding send
  send-db sid m w = elim (Option-cases (lib.dump m)) [
    | inl e ↦ rw (e, send) refl
    | inr (b, e) ↦ rw (e, send) refl
  ]

  pub send-manager : (sid : ℕ) (m : Json) (w : World Json) → (send lib sid m w).manager ≡ w.manager
  unfolding send
  send-manager sid m w = elim (Option-cases (lib.dump m)) [
    | inl e ↦ rw (e, send) refl
    | inr (b, e) ↦ rw (e, send) refl
  ]

  pub send-next_session :
      (sid : ℕ) (m : Json) (w : World Json) → (send lib sid m w).next_session ≡ w.next_session
  unfolding send
  send-next_session sid m w = elim (Option-cases (lib.dump m)) [
    | inl e ↦ rw (e, send) refl
    | inr (b, e) ↦ rw (e, send) refl
  ]

  pub send-authenticated :
      (sid k : ℕ) (m : Json) (w : World Json)
      → ((send lib sid m w).sessions k).authenticated ≡ (w.sessions k).authenticated
  unfolding send
  send-authenticated sid k m w = elim (Option-cases (lib.dump m)) [
    | inl e ↦ rw (e, send) refl
    | inr (b, e) ↦ rw (e, send) (ground arith)
  ]

  pub send-user_id :
      (sid k : ℕ) (m : Json) (w : World Json)
      → ((send lib sid m w).sessions k).user_id ≡ (w.sessions k).user_id
  unfolding send
  send-user_id sid k m w = elim (Option-cases (lib.dump m)) [
    | inl e ↦ rw (e, send) refl
    | inr (b, e) ↦ rw (e, send) (ground arith)
  ]

  pub send-message_buffer :
      (sid k : ℕ) (m : Json) (w : World Json)
      → ((send lib sid m w).sessions k).message_buffer ≡ (w.sessions k).message_buffer
  unfolding send
  send-message_buffer sid k m w = elim (Option-cases (lib.dump m)) [
    | inl e ↦ rw (e, send) refl
    | inr (b, e) ↦ rw (e, send) (ground arith)
  ]

  pub send-other :
      (sid k : ℕ) (m : Json) (w : World Json)
      → sid ≢ k
      → (send lib sid m w).sessions k ≡ w.sessions k
  unfolding send
  send-other sid k m w ne = elim (Option-cases (lib.dump m)) [
    | inl e ↦ rw (e, send) refl
    | inr (b, e) ↦ rw (e, send) (ground arith)
  ]

  -- A message that can be serialized is the last one that its session has sent.
  pub send-sent :
      (sid : ℕ) (m : Json) (w : World Json) (b : List ℕ)
      → lib.dump m ≡ some b
      → ((send lib sid m w).sessions sid).sent ≡ (w.sessions sid).sent ++ m ∷ []
  unfolding send
  send-sent sid m w b e = rw (e, send) (ground arith)

  -- On an open session it is written as a line.
  pub send-wire :
      (sid : ℕ) (m : Json) (w : World Json) (b : List ℕ)
      → lib.dump m ≡ some b
      → (w.sessions sid).closing ≡ false
      → ((send lib sid m w).sessions sid).wire ≡ (w.sessions sid).wire ++ (b ++ newline ∷ [])
  unfolding send set_session
  send-wire sid m w b e open_yet =
      rw (e, send)
        (ap (λ (t : Session Json). t.wire)
            (if_true (sid == sid) _ _ ((nat_eq.same_iff sid sid).1 refl))
          ∙ if_false (w.sessions sid).closing _ _ open_yet
          ∙ append_assoc (w.sessions sid).wire b (newline ∷ []))

  pub send-closing :
      (sid k : ℕ) (m : Json) (w : World Json)
      → ((send lib sid m w).sessions k).closing ≡ (w.sessions k).closing
  unfolding send
  send-closing sid k m w = elim (Option-cases (lib.dump m)) [
    | inl e ↦ rw (e, send) refl
    | inr (b, e) ↦ rw (e, send) (ground arith)
  ]

  pub send-nothing :
      (sid : ℕ) (m : Json) (w : World Json) → lib.dump m ≡ none → send lib sid m w ≡ w
  unfolding send
  send-nothing sid m w e = rw (e, send) refl

-- A connection gives its session to a user: the other sessions are as they were.
pub authenticated-other :
    {Json : Type 0} (sid k user_id : ℕ) (name : String) (w : World Json)
    → sid ≢ k
    → (set_authenticated sid user_id name w).sessions k ≡ w.sessions k
unfolding set_authenticated
authenticated-other sid k u name w ne = ground arith

pub set_session-other :
    {Json : Type 0} (sid k : ℕ) (s : Session Json) (w : World Json)
    → sid ≢ k
    → (set_session sid s w).sessions k ≡ w.sessions k
unfolding set_session
set_session-other sid k s w ne = ground arith

-- What the new state of a session has in common with the old one, all sessions keep.
pub set_session-keeps :
    {Json A : Type 0} (f : Session Json → A) (sid k : ℕ) (s : Session Json) (w : World Json)
    → f s ≡ f (w.sessions sid)
    → f ((set_session sid s w).sessions k) ≡ f (w.sessions k)
unfolding set_session
set_session-keeps f sid k s w h = elim (Bool-cases (sid == k)) [
  | inl e ↦ rw e (h ∙ ap (λ (i : ℕ). f (w.sessions i)) ((nat_eq.same_iff sid k).0 e))
  | inr e ↦ rw e refl
]
