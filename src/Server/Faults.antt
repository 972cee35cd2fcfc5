-- ===== src/Server/Faults.antt =====
-- Session::close and a second login against the maps of server/user_manager.cpp, and the answer
-- of JsonParser::handleMessage.
use asynchronous_messenger.Base.{
  ℕ, String, true, false, ◌≡◌, refl, ◌≢◌, ap, ◌∙◌, sym, none, some, arith, ◌==◌, nat_eq, string_eq,
  if_cases, bind_cases, try◌catch◌,
}
use asynchronous_messenger.Json.{JsonLib}
use asynchronous_messenger.Env.{Env}
use asynchronous_messenger.Database.{get_user}
use asynchronous_messenger.UserManager.{get_session, remove_session, add_session}
use asynchronous_messenger.UserManager.Sessions.{sessions_after}
use asynchronous_messenger.Session.{World, close, set_authenticated}
use asynchronous_messenger.Router.{route_message, deliver_message}
use asynchronous_messenger.JsonParser.{
  is_session_authenticated, handle_message, send_response, bind_session,
}

module _ {Json : Type 0} (lib : JsonLib Json) (env : Env) where
  close-manager :
      (sid : ℕ) (w : World Json)
      → (w.sessions sid).closing ≡ false
      → (w.sessions sid).authenticated ≡ true
      → (close sid w).manager ≡ remove_session (w.sessions sid).user_id w.manager
  unfolding close
  close-manager sid w open_yet auth = rw (open_yet, auth) refl

  close-closing : (sid : ℕ) (w : World Json) → ((close sid w).sessions sid).closing ≡ true
  unfolding close
  close-closing sid w = ground arith

  bind_session-state :
      (sid u : ℕ) (name : String) (w : World Json)
      → (((bind_session sid u name w).sessions sid).authenticated ≡ true)
        × (((bind_session sid u name w).sessions sid).closing ≡ (w.sessions sid).closing)
        × (((bind_session sid u name w).sessions sid).user_id ≡ u)
        × ((bind_session sid u name w).manager ≡ add_session u name sid w.manager)
  unfolding bind_session set_authenticated
  bind_session-state sid u name w = (ground arith, ground arith, ground arith, refl)

  -- An open session that logs in as a second user stays the session of the first, also when it
  -- is closed.
  pub relogin_leaks :
      (sid first second : ℕ) (name : String) (w : World Json)
      → first ≢ second
      → (w.sessions sid).closing ≡ false
      → get_session first w.manager ≡ some sid
      → let w' = close sid (bind_session sid second name w) in
        (get_session first w'.manager ≡ some sid) × ((w'.sessions sid).closing ≡ true)
  relogin_leaks sid u v name w ne open_yet was =
      let facts = bind_session-state sid v name w in
      (
        ap (get_session u)
              (close-manager sid (bind_session sid v name w) (facts.1 ∙ open_yet) facts.0)
            ∙ (rw (facts.2, facts.3) (((sessions_after v u name sid _).2 (λ e. ne (sym e))).1))
            ∙ ((sessions_after v u name sid w.manager).2 (λ e. ne (sym e))).0
            ∙ was,
        close-closing sid (bind_session sid v name w),
      )

  route_unknown :
      (m : Json) (sender : ℕ) (to : String) (w : World Json)
      → lib.as_string m "to" ≡ some to
      → get_user env to w.db ≡ none
      → route_message lib env m sender w ≡ w
  unfolding route_message deliver_message
  route_unknown m sender to w receiver unknown =
      bind_cases (λ v. v ≡ w) (lib.as_string m "type") _ w refl
        λ t _.
          if_cases (λ o. (try o catch w) ≡ w) (t == "message") _ _
            (λ _. rw receiver (rw (unknown, deliver_message) refl)) (λ _. refl)

  -- A message of a logged-in session to a name that is not found changes nothing, and is
  -- answered as sent.
  pub unknown_receiver_confirmed :
      (m : Json) (sid : ℕ) (w : World Json) (to : String)
      → is_session_authenticated lib env sid w ≡ true
      → lib.contains m "to" ≡ true
      → lib.contains m "content" ≡ true
      → lib.as_string m "to" ≡ some to
      → get_user env to w.db ≡ none
      → handle_message lib env m sid w ≡ send_response lib env sid "message" true "Message sent" w
  unfolding handle_message
  unknown_receiver_confirmed m sid w to auth has_to has_content receiver unknown =
      rw (auth, has_to, has_content)
        (ap (λ (v : World Json). send_response lib env sid "message" true "Message sent" v)
          (route_unknown m (w.sessions sid).user_id to w receiver unknown))
