-- ===== src/Programs/SimpleTest/Growth.antt =====
-- What a connection gets of the server (server/session.cpp) while it is open.
use asynchronous_messenger.Base.{
  ℕ, ◌<◌, String, false, ◌≡◌, ◌≢◌, refl, ap, ◌∙◌, sym, List, [], ◌∷◌, ◌++◌, ◌==◌, nat_eq, arith,
  Bool-cases, Option-cases, inl, inr, append_assoc, append-nil, subst,
}
use asynchronous_messenger.Json.{JsonLib}
use asynchronous_messenger.Env.{Env}
use asynchronous_messenger.Session.{Session, World, send, set_session, set_authenticated}
use asynchronous_messenger.Session.Store.{
  send-next_session, send-sent, send-wire, send-other, send-closing, send-nothing,
  set_session-keeps,
}
use asynchronous_messenger.JsonParser.{bind_session, parse_message}
use asynchronous_messenger.Server.{received, step}
use asynchronous_messenger.Server.Induction.{Kept, parse_message_keeps}
use asynchronous_messenger.Server.Invariant.{do_read-handled}
use asynchronous_messenger.Client.Transport.{Dumped, nothing, more}
use asynchronous_messenger.Wire.{newline}
use asynchronous_messenger.Wire.Frames.{lines, split, handle_all, handle_all_keeps}

pub not_same : {a b : ℕ} → (a == b) ≡ false → a ≢ b
not_same e = ground (arith, e)

pub lines_append : (us vs : List (List ℕ)) → lines (us ++ vs) ≡ lines us ++ lines vs
lines_append [] vs = refl
lines_append (u ∷ us) vs =
    rw (lines_append us vs) (sym (append_assoc u (newline ∷ lines us) (lines vs)))

module _ {Json : Type 0} (lib : JsonLib Json) where
  pub Dumped-append :
      (ms ns : List Json) (us vs : List (List ℕ))
      → Dumped lib ms us
      → Dumped lib ns vs
      → Dumped lib (ms ++ ns) (us ++ vs)
  Dumped-append [] ns [] vs nothing d = d
  Dumped-append [] ns (u ∷ us) vs e d = elim e [ ]
  Dumped-append (m ∷ ms) ns [] vs e d = elim e [ ]
  Dumped-append (m ∷ ms) ns (u ∷ us) vs (more e ds) d = more e (Dumped-append ms ns us vs ds d)

  -- The messages that session k has sent since, and their lines.
  pub record Grown (k : ℕ) (u v : World Json) : Type 0 where
    pub messages : List Json
    pub texts : List (List ℕ)
    pub sent : (v.sessions k).sent ≡ (u.sessions k).sent ++ messages
    pub wire : (v.sessions k).wire ≡ (u.sessions k).wire ++ lines texts
    pub dumped : Dumped lib messages texts

  pub Grown-refl : (k : ℕ) (u : World Json) → Grown k u u
  Grown-refl k u = record {
    messages = [];
    texts = [];
    sent = sym (append-nil _);
    wire = sym (append-nil _);
    dumped = nothing;
  }

  pub Grown-trans : (k : ℕ) (u v w : World Json) → Grown k u v → Grown k v w → Grown k u w
  Grown-trans k u v w g h = record {
    messages = g.messages ++ h.messages;
    texts = g.texts ++ h.texts;
    sent =
        h.sent
        ∙ ap (λ (l : List Json). l ++ h.messages) g.sent
        ∙ append_assoc (u.sessions k).sent g.messages h.messages;
    wire =
        h.wire
        ∙ ap (λ (l : List ℕ). l ++ lines h.texts) g.wire
        ∙ append_assoc (u.sessions k).wire (lines g.texts) (lines h.texts)
        ∙ ap (λ (l : List ℕ). (u.sessions k).wire ++ l) (sym (lines_append g.texts h.texts));
    dumped = Dumped-append g.messages h.messages g.texts h.texts g.dumped h.dumped;
  }

  -- Nothing of a session is seen but its messages.
  pub Grown-same :
      (k : ℕ) (u v w : World Json)
      → (w.sessions k).sent ≡ (v.sessions k).sent
      → (w.sessions k).wire ≡ (v.sessions k).wire
      → Grown k u v
      → Grown k u w
  Grown-same k u v w sent wire g = record {
    messages = g.messages;
    texts = g.texts;
    sent = sent ∙ g.sent;
    wire = wire ∙ g.wire;
    dumped = g.dumped;
  }

  -- An open session has grown.
  pub record Steady (k : ℕ) (u v : World Json) : Type 0 where
    pub open_yet : (v.sessions k).closing ≡ false
    pub known : k < v.next_session
    pub grown : Grown k u v

  -- A change of a session that leaves what was sent and the end of the connection.
  changed :
      (k : ℕ) (u w : World Json) (sid : ℕ) (s : Session Json) (v : World Json)
      → s.sent ≡ (w.sessions sid).sent
      → s.wire ≡ (w.sessions sid).wire
      → s.closing ≡ (w.sessions sid).closing
      → v.sessions ≡ (set_session sid s w).sessions
      → v.next_session ≡ w.next_session
      → Steady k u w
      → Steady k u v
  changed k u w sid s v sent wire closing same counted h = record {
    open_yet =
        ap (λ (f : ℕ → Session Json). (f k).closing) same
        ∙ set_session-keeps (λ (t : Session Json). t.closing) sid k s w closing
        ∙ h.open_yet;
    known = rw counted h.known;
    grown =
        Grown-same k u w v
          (ap (λ (f : ℕ → Session Json). (f k).sent) same
            ∙ set_session-keeps (λ (t : Session Json). t.sent) sid k s w sent)
          (ap (λ (f : ℕ → Session Json). (f k).wire) same
            ∙ set_session-keeps (λ (t : Session Json). t.wire) sid k s w wire)
          h.grown;
  }

  send-Grown :
      (sid k : ℕ) (m : Json) (w : World Json)
      → (w.sessions k).closing ≡ false
      → Grown k w (send lib sid m w)
  send-Grown sid k m w open_yet = elim (Option-cases (lib.dump m)) [
    | inl e ↦ subst (λ v. Grown k w v) (sym (send-nothing lib sid m w e)) (Grown-refl k w)
    | inr (b, e) ↦ elim (Bool-cases (sid == k)) [
      | inl same ↦
          let is : sid ≡ k = (nat_eq.same_iff sid k).0 same in
          subst (λ i. Grown i w (send lib sid m w)) is
            (record {
              messages = m ∷ [];
              texts = b ∷ [];
              sent = send-sent lib sid m w b e;
              wire = send-wire lib sid m w b e (ap (λ i. (w.sessions i).closing) is ∙ open_yet);
              dumped = more e nothing;
            })
      | inr other ↦
          let there = send-other lib sid k m w (λ is. not_same other is) in
          Grown-same k w w (send lib sid m w) (ap (λ (t : Session Json). t.sent) there)
            (ap (λ (t : Session Json). t.wire) there) (Grown-refl k w)
    ]
  ]

  module _ (hasher : String → ℕ) (env : Env) (k : ℕ) where
    pub request-Steady : (u : World Json) (self : ℕ) → Kept lib hasher env self (Steady k u)
    unfolding bind_session set_authenticated
    request-Steady u self = record {
      on_send = λ sid m w to composed h. record {
        open_yet = send-closing lib sid k m w ∙ h.open_yet;
        known = rw (send-next_session lib sid m w) h.known;
        grown = Grown-trans k u w (send lib sid m w) h.grown (send-Grown sid k m w h.open_yet);
      };
      on_register = λ _ e p w h. record {
        open_yet = h.open_yet;
        known = h.known;
        grown = Grown-same k u w _ refl refl h.grown;
      };
      on_store = λ s r c d w h. record {
        open_yet = h.open_yet;
        known = h.known;
        grown = Grown-same k u w _ refl refl h.grown;
      };
      on_delete = λ _ w h. record {
        open_yet = h.open_yet;
        known = h.known;
        grown = Grown-same k u w _ refl refl h.grown;
      };
      on_bind = λ i name p w e h.
          changed k u w self _ (bind_session self i name w) refl refl refl refl refl h;
    }

    -- A read, of whatever session, adds to what an open session has sent.
    pub read-Steady :
        (sid : ℕ) (chunk : List ℕ) (u w : World Json)
        → Steady k u w
        → Steady k u (step lib hasher env (received sid chunk) w)
    unfolding step set_session
    read-Steady sid chunk u w h =
        let texts = split ((w.sessions sid).message_buffer ++ chunk) in
        let handle = λ (m : List ℕ) (v : World Json). parse_message lib hasher env m sid v in
        let v = handle_all handle w texts.0 in
        rw (do_read-handled lib hasher env sid chunk w) (
          changed k u v sid (record (v.sessions sid) { message_buffer = texts.1 }) _ refl refl refl
            refl refl
            (handle_all_keeps (Steady k u) handle
              (λ m x. parse_message_keeps lib hasher env sid (request-Steady u sid) m x) w texts.0
              h))
