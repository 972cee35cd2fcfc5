-- ===== src/Server/Answers/Lines.antt =====
-- JsonParser::parseMessage of server/json_parser.cpp and the reads of Session::do_read: how many
-- answers a client gets.
use asynchronous_messenger.Base.{
  ℕ, ◌+◌, String, Bool, true, not, ◌||◌, ◌≡◌, refl, Option, none, some, List, [], ◌∷◌, ◌++◌, ◌==◌,
  nat_eq, string_eq, if◌then◌else◌, arith, Bool-cases, Option-cases, inl, inr, if_cases, bind_cases,
  is_empty,
}
use asynchronous_messenger.Json.{JsonLib, JsonLaws, Serializes}
use asynchronous_messenger.Env.{Env}
use asynchronous_messenger.UserManager.{authenticate_user, register_user}
use asynchronous_messenger.Session.{Session, World, set_authenticated, set_session}
use asynchronous_messenger.Session.Store.{set_session-keeps}
use asynchronous_messenger.Router.{send_stored_messages}
use asynchronous_messenger.JsonParser.{
  send_response, handle_register, handle_login, login_with, bind_session, dispatch, handle_request,
  parse_message,
}
use asynchronous_messenger.Server.{received, step}
use asynchronous_messenger.Server.Invariant.{do_read-handled}
use asynchronous_messenger.Server.Answers.{Answers, Quiet, quiet_then, then_quiet, answers}
use asynchronous_messenger.Server.Answers.Requests.{
  message_answers, typing-Quiet, send_stored-Quiet,
}
use asynchronous_messenger.Server.Answers.Kinds.{answer_register, answer_login, answer_error}
use asynchronous_messenger.Wire.{handle_nonempty}
use asynchronous_messenger.Wire.Frames.{split, handle_all}

module _ {Json : Type 0} (lib : JsonLib Json) where
  -- A text is answered, unless it is an object of type "typing".
  abbrev no_typing : Option String → Bool
  no_typing none = true
  no_typing (some t) = not (t == "typing")

  abbrev pub asks_of : Json → Bool
  asks_of m = if lib.contains m "type" then no_typing (lib.as_string m "type") else true

  abbrev asks_parsed : Option Json → Bool
  asks_parsed none = true
  asks_parsed (some m) = asks_of m

  abbrev pub asks : List ℕ → Bool
  asks raw = asks_parsed (lib.parse raw)

  -- How many of some texts are answered; an empty text is passed over.
  abbrev pub questions : List (List ℕ) → ℕ
  questions [] = 0
  questions (t ∷ ts) = (if is_empty t then 0 else if asks t then 1 else 0) + questions ts

  pub questions-append :
      (ts us : List (List ℕ)) → questions (ts ++ us) ≡ questions ts + questions us
  questions-append [] us = omega arith
  questions-append (t ∷ ts) us = omega (arith, questions-append ts us)

module _ {Json : Type 0} (lib : JsonLib Json) (laws : JsonLaws lib) (s : Serializes lib)
    (hasher : String → ℕ) (env : Env) where
  bind_session-Quiet :
      (sid u : ℕ) (name : String) (w : World Json) → Quiet lib w (bind_session sid u name w)
  unfolding bind_session set_authenticated
  bind_session-Quiet sid u name w k =
      set_session-keeps (λ (t : Session Json). answers lib t.sent) sid k _ w refl

  register_answers :
      (m : Json) (sid : ℕ) (w : World Json)
      → Answers lib 1 sid w (handle_register lib hasher env m sid w)
  unfolding handle_register
  register_answers m sid w =
      let P = Answers lib 1 sid w in
      if_cases P
        (not (lib.contains m "username")
          || not (lib.contains m "email")
          || not (lib.contains m "password"))
        _ _ (λ _. answer_register lib laws s env sid _ _ w)
        λ _.
          bind_cases P (lib.as_string m "username") _ _ (answer_register lib laws s env sid _ _ w)
            λ u _.
              bind_cases P (lib.as_string m "email") _ _ (answer_register lib laws s env sid _ _ w)
                λ e _.
                  bind_cases P (lib.as_string m "password") _ _
                    (answer_register lib laws s env sid _ _ w)
                    λ p _.
                      let r = register_user hasher env u e p w.db in
                      if_cases P r.0 _ _
                        (λ _. answer_register lib laws s env sid _ _ (record w { db = r.1 }))
                        (λ _. answer_register lib laws s env sid _ _ (record w { db = r.1 }))

  login_with_answers :
      (name password : String) (sid : ℕ) (w : World Json)
      → Answers lib 1 sid w (login_with lib hasher env name password sid w)
  unfolding login_with
  login_with_answers name pw sid w =
      elim (Option-cases (authenticate_user hasher env name pw w.db)) [
        | inl e ↦ rw (e, login_with) (answer_login lib laws s env sid _ _ w)
        | inr (u, e) ↦
            let bound = bind_session sid u name w in
            let told = send_response lib env sid "login" true "Login successful" bound in
            rw (e, login_with)
              (then_quiet lib 1 sid w told (send_stored_messages lib env u sid told)
                (quiet_then lib 1 sid w bound told (bind_session-Quiet sid u name w)
                  (answer_login lib laws s env sid true "Login successful" bound))
                (send_stored-Quiet lib laws s env u sid told))
      ]

  login_answers :
      (m : Json) (sid : ℕ) (w : World Json)
      → Answers lib 1 sid w (handle_login lib hasher env m sid w)
  unfolding handle_login
  login_answers m sid w =
      let P = Answers lib 1 sid w in
      if_cases P (not (lib.contains m "username") || not (lib.contains m "password")) _ _
        (λ _. answer_login lib laws s env sid _ _ w)
        λ _.
          bind_cases P (lib.as_string m "username") _ _ (answer_login lib laws s env sid _ _ w)
            λ u _.
              bind_cases P (lib.as_string m "password") _ _ (answer_login lib laws s env sid _ _ w)
                λ p _. login_with_answers u p sid w

  -- How often a request is answered.
  abbrev count : Bool → ℕ
  count b = if b then 1 else 0

  dispatch_answers :
      (t : String) (m : Json) (sid : ℕ) (w : World Json)
      → Answers lib (count (not (t == "typing"))) sid w (dispatch lib hasher env t m sid w)
  unfolding dispatch
  dispatch_answers t m sid w = elim (Bool-cases (t == "typing")) [
    | inl typing ↦
        rw ((string_eq.same_iff t "typing").0 typing, dispatch)
          (λ k. ground (arith, typing-Quiet lib laws s env m sid w k))
    | inr other ↦
        let P = Answers lib 1 sid w in
        rw other (
          if_cases P (t == "register") _ _ (λ _. register_answers m sid w)
            λ _.
              if_cases P (t == "login") _ _ (λ _. login_answers m sid w)
                λ _.
                  if_cases P (t == "message") _ _ (λ _. message_answers lib laws s env m sid w)
                    λ _. answer_error lib laws s env sid _ _ w)
  ]

  request_answers :
      (m : Json) (sid : ℕ) (w : World Json)
      → Answers lib (count (asks_of lib m)) sid w (handle_request lib hasher env m sid w)
  unfolding handle_request
  request_answers m sid w =
      let error = answer_error lib laws s env sid in
      elim (Bool-cases (lib.contains m "type")) [
        | inl typed ↦
            rw (typed, handle_request)
              (elim (Option-cases (lib.as_string m "type")) [
                | inl e ↦ rw (e, no_typing) (error _ _ w)
                | inr (t, e) ↦ rw (e, no_typing) (dispatch_answers t m sid w)
              ])
        | inr untyped ↦ rw (untyped, handle_request) (error _ _ w)
      ]

  text_answers :
      (raw : List ℕ) (sid : ℕ) (w : World Json)
      → Answers lib (count (asks lib raw)) sid w (parse_message lib hasher env raw sid w)
  unfolding parse_message
  text_answers raw sid w = elim (Option-cases (lib.parse raw)) [
    | inl e ↦ rw (e, parse_message, asks_parsed) (answer_error lib laws s env sid _ _ w)
    | inr (m, e) ↦
        let (b, dumped) = s.dumps m in
        rw (e, parse_message, asks_parsed) (rw (dumped, parse_message) (request_answers m sid w))
  ]

  Answers-add :
      (a b sid : ℕ) (u v w : World Json)
      → Answers lib a sid u v
      → Answers lib b sid v w
      → Answers lib (a + b) sid u w
  Answers-add a b sid u v w h g k = ground (arith, h k, g k)

  nonempty_answers :
      (t : List ℕ) (sid : ℕ) (w : World Json)
      → Answers lib
          (questions lib (t ∷ []))
          sid
          w
          (handle_nonempty (λ m. parse_message lib hasher env m sid) t w)
  unfolding handle_nonempty
  nonempty_answers [] sid w k = ground arith
  nonempty_answers (c ∷ t) sid w k = ground (arith, text_answers (c ∷ t) sid w k)

  texts_answers :
      (ts : List (List ℕ)) (sid : ℕ) (w : World Json)
      → Answers lib
          (questions lib ts)
          sid
          w
          (handle_all (λ m. parse_message lib hasher env m sid) w ts)
  texts_answers [] sid w k = ground arith
  texts_answers (t ∷ ts) sid w k =
      let next = handle_nonempty (λ m. parse_message lib hasher env m sid) t w in
      ground (arith, nonempty_answers t sid w k, texts_answers ts sid next k)

  -- The answers to a read.
  pub received_answered :
      (chunk : List ℕ) (sid : ℕ) (w : World Json)
      → let texts = (split ((w.sessions sid).message_buffer ++ chunk)).0 in
        Answers lib (questions lib texts) sid w (step lib hasher env (received sid chunk) w)
  unfolding step
  received_answered chunk sid w =
      let texts = split ((w.sessions sid).message_buffer ++ chunk) in
      let w' = handle_all (λ m. parse_message lib hasher env m sid) w texts.0 in
      rw (do_read-handled lib hasher env sid chunk w) (
        then_quiet lib (questions lib texts.0) sid w w'
          (set_session sid (record (w'.sessions sid) { message_buffer = texts.1 }) w')
          (texts_answers texts.0 sid w)
          (λ k. set_session-keeps (λ (t : Session Json). answers lib t.sent) sid k _ w' refl))
