-- ===== src/Server/Answers.antt =====
-- The answers of JsonParser::sendResponse (server/json_parser.cpp), counted among the messages that
-- the sessions of server/session.cpp send.
pub mod Kinds
pub mod Requests
pub mod Lines
pub mod Buffers
pub mod Ledger
use asynchronous_messenger.Base.{
  ℕ, ◌+◌, String, Bool, true, false, not, ◌||◌, ◌≡◌, refl, ap, ◌∙◌, sym, none, some, List, [], ◌∷◌,
  ◌++◌, ◌==◌, nat_eq, string_eq, if◌then◌else◌, arith, Bool-cases, Option-cases, inl, inr,
}
use asynchronous_messenger.Json.{JsonLib, Serializes}
use asynchronous_messenger.Session.{Session, World, send}
use asynchronous_messenger.Client.Receiver.{is_response}

module _ {Json : Type 0} (lib : JsonLib Json) where
  -- The test of the client for answers.
  unfoldable pub is_answer : Json → Bool
  is_answer m = elim (lib.as_string m "type") [ none ↦ false | some t ↦ is_response t ]

  unfoldable pub answers : List Json → ℕ
  answers [] = 0
  answers (m ∷ ms) = (if is_answer m then 1 else 0) + answers ms

  answers-append :
      (ms : List Json) (m : Json)
      → answers (ms ++ m ∷ []) ≡ answers ms + (if is_answer m then 1 else 0)
  unfolding answers
  answers-append [] m = omega arith
  answers-append (n ∷ ms) m = omega (arith, answers-append ms m)

  -- The answers that a session has sent.
  abbrev pub answered : World Json → ℕ → ℕ
  answered w k = answers (w.sessions k).sent

  -- Exactly if the first text is to be answered, one more.
  abbrev pub Answers : ℕ → ℕ → World Json → World Json → Type 0
  Answers n sid w w' = (k : ℕ) → answered w' k ≡ answered w k + (if sid == k then n else 0)

  pub send_answers :
      (s : Serializes lib) (sid : ℕ) (m : Json) (w : World Json)
      → Answers (if is_answer m then 1 else 0) sid w (send lib sid m w)
  unfolding send
  send_answers s sid m w k =
      let (b, dumped) = s.dumps m in
      rw (dumped, send)
        (elim (Bool-cases (sid == k)) [
          | inl e ↦
              let same : w.sessions sid ≡ w.sessions k =
                ap w.sessions ((nat_eq.same_iff sid k).0 e) in
              rw e (
                answers-append (w.sessions sid).sent m
                ∙ ap (λ (t : Session Json). answers t.sent + (if is_answer m then 1 else 0)) same)
          | inr e ↦ rw e (omega arith)
        ])

  -- No session has sent an answer.
  abbrev pub Quiet : World Json → World Json → Type 0
  Quiet w w' = (k : ℕ) → answered w' k ≡ answered w k

  pub send-Quiet :
      (s : Serializes lib) (sid : ℕ) (m : Json) (w : World Json)
      → is_answer m ≡ false
      → Quiet w (send lib sid m w)
  send-Quiet s sid m w no_answer k = ground (arith, no_answer, send_answers s sid m w k)

  pub quiet_then :
      (n sid : ℕ) (u v w : World Json) → Quiet u v → Answers n sid v w → Answers n sid u w
  quiet_then n sid u v w h a k = omega (arith, h k, a k)

  pub then_quiet :
      (n sid : ℕ) (u v w : World Json) → Answers n sid u v → Quiet v w → Answers n sid u w
  then_quiet n sid u v w a h k = omega (arith, h k, a k)

  pub Quiet-Quiet : (u v w : World Json) → Quiet u v → Quiet v w → Quiet u w
  Quiet-Quiet u v w h g k = omega (arith, h k, g k)
