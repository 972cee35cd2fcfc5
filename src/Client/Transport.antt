-- ===== src/Client/Transport.antt =====
-- The bytes that client/client_connection.cpp writes in Session::do_read of server/session.cpp.
use asynchronous_messenger.Base.{
  ℕ, String, false, ◌≡◌, refl, ◌∙◌, ap, sym, some, List, [], ◌∷◌, ◌++◌, foldl, is_empty, inl, inr,
  append_assoc, subst,
}
use asynchronous_messenger.Json.{JsonLib}
use asynchronous_messenger.Env.{Env}
use asynchronous_messenger.Session.{World, set_session}
use asynchronous_messenger.JsonParser.{handle_request, parse_message}
use asynchronous_messenger.Server.{received, step}
use asynchronous_messenger.Server.Invariant.{do_read-handled}
use asynchronous_messenger.Wire.{newline, handle_nonempty}
use asynchronous_messenger.Wire.Frames.{
  lines, has_newline, AllWhole, split, split-lines, handle_all,
}
use asynchronous_messenger.Client.{Client, Net}
use asynchronous_messenger.Client.Machine.{Action, act}
use asynchronous_messenger.Client.Reach.{ClientReach, created, acted}
use asynchronous_messenger.Client.Requests.{act-WrotePermitted}

-- What is serialized can be parsed again, and is a text of one line that is not empty.
pub record RoundTrips {Json : Type 0} (lib : JsonLib Json) : Type 0 where
  pub parses : (j : Json) (text : List ℕ) → lib.dump j ≡ some text → lib.parse text ≡ some j
  pub one_line : (j : Json) (text : List ℕ) → lib.dump j ≡ some text → has_newline text ≡ false
  pub filled : (j : Json) (text : List ℕ) → lib.dump j ≡ some text → is_empty text ≡ false

lines-append :
    (ms : List (List ℕ)) (m : List ℕ) → lines (ms ++ m ∷ []) ≡ lines ms ++ (m ++ newline ∷ [])
lines-append [] m = refl
lines-append (n ∷ ms) m =
    rw (lines-append ms m) (sym (append_assoc n (newline ∷ lines ms) (m ++ newline ∷ [])))

module _ {Json : Type 0} (lib : JsonLib Json) where
  -- The texts of messages.
  pub data Dumped : List Json → List (List ℕ) → Type 0 where
    nothing : Dumped [] []
    more :
        {ms : List Json} {texts : List (List ℕ)} {m : Json} {text : List ℕ}
        → lib.dump m ≡ some text
        → Dumped ms texts
        → Dumped (m ∷ ms) (text ∷ texts)

  Dumped-append :
      (ms : List Json) (texts : List (List ℕ)) (m : Json) (text : List ℕ)
      → Dumped ms texts
      → lib.dump m ≡ some text
      → Dumped (ms ++ m ∷ []) (texts ++ text ∷ [])
  Dumped-append [] [] m text nothing e = more e nothing
  Dumped-append [] (t ∷ ts) m text d e = elim d [ ]
  Dumped-append (n ∷ ms) [] m text d e = elim d [ ]
  Dumped-append (n ∷ ms) (t ∷ ts) m text (more d ds) e = more d (Dumped-append ms ts m text ds e)

  abbrev OnWire : Client Json → Type 0
  OnWire c =
      (texts : List (List ℕ)) × (c.connection.wire ≡ lines texts) × Dumped c.connection.sent texts

  act-OnWire : (net : Net) (a : Action) (c : Client Json) → OnWire c → OnWire (act lib net a c)
  act-OnWire net a c (texts, on_wire, dumped) = elim (act-WrotePermitted lib net a c) [
    | inl (sent, wire) ↦ (texts, wire ∙ on_wire, subst (λ ms. Dumped ms texts) (sym sent) dumped)
    | inr (m, raw, dump, sent, wire, permitted, open_yet) ↦ (
      texts ++ raw ∷ [],
      wire ∙ ap (λ (b : List ℕ). b ++ (raw ++ newline ∷ [])) on_wire ∙ sym (lines-append texts raw),
      subst (λ ms. Dumped ms (texts ++ raw ∷ [])) (sym sent)
          (Dumped-append _ texts m raw dumped dump),
    )
  ]

  ClientReach-OnWire : (c : Client Json) → ClientReach lib c → OnWire c
  ClientReach-OnWire c created = ([], refl, nothing)
  ClientReach-OnWire c (acted {c = d} net a r) = act-OnWire net a d (ClientReach-OnWire d r)

  module _ (laws : RoundTrips lib) (hasher : String → ℕ) (env : Env) (sid : ℕ) where
    Dumped-AllWhole : (ms : List Json) (texts : List (List ℕ)) → Dumped ms texts → AllWhole texts
    Dumped-AllWhole [] [] nothing = tt
    Dumped-AllWhole [] (t ∷ ts) d = elim d [ ]
    Dumped-AllWhole (m ∷ ms) [] d = elim d [ ]
    Dumped-AllWhole (m ∷ ms) (t ∷ ts) (more e d) = (laws.one_line m t e, Dumped-AllWhole ms ts d)

    line_handled :
        (m : Json) (t : List ℕ) (w : World Json)
        → lib.dump m ≡ some t
        → handle_nonempty (λ m. parse_message lib hasher env m sid) t w
          ≡ handle_request lib hasher env m sid w
    unfolding handle_nonempty parse_message
    line_handled m t w e =
        rw (laws.filled m t e, handle_nonempty) (rw (laws.parses m t e, parse_message, e) refl)

    handled_texts :
        (ms : List Json) (texts : List (List ℕ)) (w : World Json)
        → Dumped ms texts
        → handle_all (λ m. parse_message lib hasher env m sid) w texts
          ≡ foldl (λ v m. handle_request lib hasher env m sid v) w ms
    handled_texts [] [] w nothing = refl
    handled_texts [] (t ∷ ts) w d = elim d [ ]
    handled_texts (m ∷ ms) [] w d = elim d [ ]
    handled_texts (m ∷ ms) (t ∷ ts) w (more e d) =
        rw (line_handled m t w e) (handled_texts ms ts _ d)

    -- If messages are serialized to texts of one line that parse to them again: a session
    -- that was quiet before and reads in one piece all that a client has written, in any
    -- state that the client can come to, handles exactly the client's requests, in the order
    -- in which they were sent, and is left with an empty buffer.
    pub sent_handled :
        (c : Client Json) (w : World Json)
        → ClientReach lib c
        → (w.sessions sid).message_buffer ≡ []
        → let w' = foldl (λ v m. handle_request lib hasher env m sid v) w c.connection.sent in
          step lib hasher env (received sid c.connection.wire) w
          ≡ set_session sid (record (w'.sessions sid) { message_buffer = [] }) w'
    unfolding step
    sent_handled c w r quiet =
        let (texts, on_wire, dumped) = ClientReach-OnWire c r in
        let cut : split ((w.sessions sid).message_buffer ++ c.connection.wire) ≡ (texts, []) =
          rw (quiet, on_wire) (split-lines texts (Dumped-AllWhole _ texts dumped)) in
        do_read-handled lib hasher env sid c.connection.wire w
        ∙ rw (cut, handled_texts _ texts w dumped) refl
