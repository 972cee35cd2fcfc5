-- ===== src/JsonParser/Guards.antt =====
-- The guards of the handlers of server/json_parser.cpp for a session that is not logged in.
use asynchronous_messenger.Base.{
  ℕ, String, Bool, false, not, ◌≡◌, refl, ◌≢◌, ap, ◌∙◌, some, List, ◌==◌, nat_eq, string_eq, str_ne,
  Option-cases, inl, inr, if_cases, bind_cases,
}
use asynchronous_messenger.Json.{JsonLib}
use asynchronous_messenger.Env.{Env}
use asynchronous_messenger.Session.{World}
use asynchronous_messenger.Session.Store.{send-db, send-manager, send-other}
use asynchronous_messenger.JsonParser.{
  is_session_authenticated, send_response, handle_message, handle_typing, dispatch, parse_message,
}

-- Only the session itself was sent something: the database, the logins and the other sessions are
-- as they were.
pub record OnlyAnswered {Json : Type 0} (sid : ℕ) (w w' : World Json) : Type 0 where
  pub db : w'.db ≡ w.db
  pub manager : w'.manager ≡ w.manager
  pub others : (k : ℕ) → sid ≢ k → w'.sessions k ≡ w.sessions k

module _ {Json : Type 0} (lib : JsonLib Json) (hasher : String → ℕ) (env : Env) where
  unchanged : (sid : ℕ) (w : World Json) → OnlyAnswered sid w w
  unchanged sid w = record { db = refl; manager = refl; others = λ k ne. refl }

  answered :
      (sid : ℕ) (type : String) (ok : Bool) (m : String) (w : World Json)
      → OnlyAnswered sid w (send_response lib env sid type ok m w)
  unfolding send_response
  answered sid type ok m w = record {
    db = send-db lib sid _ w;
    manager = send-manager lib sid _ w;
    others = λ k ne. send-other lib sid k _ w ne;
  }

  dispatch_guarded :
      (type : String) (m : Json) (sid : ℕ) (w : World Json)
      → is_session_authenticated lib env sid w ≡ false
      → type ≢ "register"
      → type ≢ "login"
      → OnlyAnswered sid w (dispatch lib hasher env type m sid w)
  unfolding dispatch handle_message handle_typing
  dispatch_guarded type m sid w out r l =
      rw (str_ne type "register" r, str_ne type "login" l)
        (if_cases (OnlyAnswered sid w) (type == "message") _ _
          (λ _. rw out (answered sid "message" false "Not authenticated" w))
          (λ _.
            if_cases (OnlyAnswered sid w) (type == "typing") _ _ (λ _. rw out (unchanged sid w))
              (λ _. answered sid "error" false _ w)))

  -- A session that is not logged in and whose text is no request to register or to log in
  -- changes neither the database nor the logins, whatever the text is, and no other session is
  -- sent anything.
  pub not_logged_in :
      (raw : List ℕ) (sid : ℕ) (w : World Json)
      → is_session_authenticated lib env sid w ≡ false
      → ((m : Json) → lib.parse raw ≡ some m → lib.as_string m "type" ≢ some "register")
      → ((m : Json) → lib.parse raw ≡ some m → lib.as_string m "type" ≢ some "login")
      → OnlyAnswered sid w (parse_message lib hasher env raw sid w)
  unfolding parse_message
  not_logged_in raw sid w out r l = elim (Option-cases (lib.parse raw)) [
    | inl e ↦ rw (e, parse_message) (answered sid "error" false _ w)
    | inr (m, e) ↦ elim (Option-cases (lib.dump m)) [
      | inl d ↦ rw (e, parse_message, d) (answered sid "error" false _ w)
      | inr (b, d) ↦
          rw (e, parse_message, d)
            (if_cases (OnlyAnswered sid w) (not (lib.contains m "type")) _ _
              (λ _. answered sid "error" false _ w)
              (λ _.
                bind_cases (OnlyAnswered sid w) (lib.as_string m "type") _ _
                  (answered sid "error" false _ w)
                  (λ t typed.
                    dispatch_guarded t m sid w out (λ x. r m e (typed ∙ ap some x))
                      (λ x. l m e (typed ∙ ap some x)))))
    ]
  ]
