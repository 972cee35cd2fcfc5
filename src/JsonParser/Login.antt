-- ===== src/JsonParser/Login.antt =====
-- JsonParser::handleLogin of server/json_parser.cpp, behind its guards.
use mathlib.Core.List.Perm
use asynchronous_messenger.Base.{
  ℕ, String, true, false, ◌≡◌, refl, ap, ◌∙◌, sym, none, some, List, [], ◌∷◌, ◌++◌, map,
  append_assoc, append-nil, is_empty, arith, nat_eq, Bool-cases, inl, inr, Perm,
}
use asynchronous_messenger.Json.{JsonLib, Serializes}
use asynchronous_messenger.Env.{Env, IsHealthy, Orders}
use asynchronous_messenger.Database.{Db, Message, get_offline_messages}
use asynchronous_messenger.Database.Messages.{
  waiting, get_offline_messages-perm, delete_offline-waiting,
}
use asynchronous_messenger.UserManager.{authenticate_user, get_session}
use asynchronous_messenger.UserManager.Sessions.{sessions_after}
use asynchronous_messenger.Session.{World, send, set_authenticated}
use asynchronous_messenger.Session.Store.{send-db, send-manager, send-sent, send-authenticated}
use asynchronous_messenger.Router.{stored_message, send_all_stored, send_stored_messages}
use asynchronous_messenger.JsonParser.{bind_session, login_with, response}

pub empty-eq : (ms : List Message) → is_empty ms ≡ true → ms ≡ []
empty-eq [] h = refl
empty-eq (m ∷ ms) h = ground arith

module _ {Json : Type 0} (lib : JsonLib Json) (env : Env) where
  pub send_all_stored-db :
      (ms : List Message) (sid : ℕ) (w : World Json) → (send_all_stored lib env ms sid w).db ≡ w.db
  unfolding send_all_stored
  send_all_stored-db [] sid w = refl
  send_all_stored-db (m ∷ ms) sid w =
      send_all_stored-db ms sid (send lib sid (stored_message lib env w.db m) w)
      ∙ send-db lib sid (stored_message lib env w.db m) w

  send_all_stored-manager :
      (ms : List Message) (sid : ℕ) (w : World Json)
      → (send_all_stored lib env ms sid w).manager ≡ w.manager
  unfolding send_all_stored
  send_all_stored-manager [] sid w = refl
  send_all_stored-manager (m ∷ ms) sid w =
      send_all_stored-manager ms sid (send lib sid (stored_message lib env w.db m) w)
      ∙ send-manager lib sid (stored_message lib env w.db m) w

  send_all_stored-sent :
      (ms : List Message) (sid : ℕ) (w : World Json)
      → Serializes lib
      → ((send_all_stored lib env ms sid w).sessions sid).sent
        ≡ (w.sessions sid).sent ++ map (stored_message lib env w.db) ms
  unfolding send_all_stored
  send_all_stored-sent [] sid w s = sym (append-nil _)
  send_all_stored-sent (m ∷ ms) sid w s =
      let msg = stored_message lib env w.db m in
      let (b, dumped) = s.dumps msg in
      send_all_stored-sent ms sid (send lib sid msg w) s
      ∙ rw (send-sent lib sid msg w b dumped, send-db lib sid msg w)
          (append_assoc (w.sessions sid).sent (msg ∷ []) _)

  pub nothing_waits :
      (user_id : ℕ) (db : Db)
      → IsHealthy env
      → Orders env
      → get_offline_messages env user_id db ≡ []
      → waiting user_id db ≡ []
  nothing_waits u db ok o e = sym (Perm.nil-eq (rw e at (get_offline_messages-perm env u db ok o)))

  -- The messages that wait are sent in the order of the query, each once, and then wait no more;
  -- that holds too where nothing waits.
  send_stored_messages_exact :
      (user_id sid : ℕ) (w : World Json)
      → Serializes lib
      → IsHealthy env
      → Orders env
      → let w' = send_stored_messages lib env user_id sid w in
        ((w'.sessions sid).sent
          ≡ (w.sessions sid).sent
            ++ map (stored_message lib env w.db) (get_offline_messages env user_id w.db))
        × (waiting user_id w'.db ≡ [])
        × (w'.manager ≡ w.manager)
  unfolding send_stored_messages
  send_stored_messages_exact u sid w s ok o =
      elim (Bool-cases (is_empty (get_offline_messages env u w.db))) [
        | inl e ↦
            let gone : get_offline_messages env u w.db ≡ [] = empty-eq _ e in
            rw (e, send_stored_messages)
              (rw gone (sym (append-nil _)), nothing_waits u w.db ok o gone, refl)
        | inr e ↦
            let ms = get_offline_messages env u w.db in
            rw (e, send_stored_messages)
              (
                send_all_stored-sent ms sid w s,
                delete_offline-waiting env u (send_all_stored lib env ms sid w).db ok,
                send_all_stored-manager ms sid w,
              )
      ]

module _ {Json : Type 0} (sid u : ℕ) (name : String) (w : World Json) where
  bind_session-db : (bind_session sid u name w).db ≡ w.db
  unfolding bind_session set_authenticated
  bind_session-db = refl

  bind_session-sent : ((bind_session sid u name w).sessions sid).sent ≡ (w.sessions sid).sent
  unfolding bind_session set_authenticated
  bind_session-sent = ground arith

  bind_session-session : get_session u (bind_session sid u name w).manager ≡ some sid
  unfolding bind_session set_authenticated
  bind_session-session = (sessions_after u u name sid w.manager).0

module _ {Json : Type 0} (lib : JsonLib Json) (hasher : String → ℕ) (env : Env) where
  -- A login with the right password, while SQLite works and every message can be serialized:
  -- the session is answered, is then sent every message that waited for the user, each once,
  -- and is the user's session from then on; nothing waits for the user any more.
  pub login_delivers :
      (username password : String) (sid user_id : ℕ) (w : World Json)
      → Serializes lib
      → IsHealthy env
      → Orders env
      → authenticate_user hasher env username password w.db ≡ some user_id
      → let w' = login_with lib hasher env username password sid w in
        ((w'.sessions sid).sent
          ≡ ((w.sessions sid).sent ++ response lib env "login" true "Login successful" ∷ [])
            ++ map (stored_message lib env w.db) (get_offline_messages env user_id w.db))
        × Perm (get_offline_messages env user_id w.db) (waiting user_id w.db)
        × (waiting user_id w'.db ≡ [])
        × (get_session user_id w'.manager ≡ some sid)
  unfolding login_with
  login_delivers name pw sid u w s ok o auth =
      let r = response lib env "login" true "Login successful" in
      let bound = bind_session sid u name w in
      let (b, dumped) = s.dumps r in
      let same : (send lib sid r bound).db ≡ w.db =
        send-db lib sid r bound ∙ bind_session-db sid u name w in
      let done = send_stored_messages_exact lib env u sid (send lib sid r bound) s ok o in
      rw (auth, login_with)
        (
          done.0
              ∙ ap
                  (λ (d : Db).
                    ((send lib sid r bound).sessions sid).sent
                    ++ map (stored_message lib env d) (get_offline_messages env u d))
                  same
              ∙ ap
                  (λ (t : List Json).
                    t ++ map (stored_message lib env w.db) (get_offline_messages env u w.db))
                  (send-sent lib sid r bound b dumped
                    ∙ ap (λ (t : List Json). t ++ r ∷ []) (bind_session-sent sid u name w)),
          get_offline_messages-perm env u w.db ok o,
          done.1,
          ap (get_session u) (done.2 ∙ send-manager lib sid r bound)
              ∙ bind_session-session sid u name w,
        )

  -- A login that is not authenticated is answered with a failure, and changes neither the
  -- database, nor who is logged in, nor whether the session is authenticated, if every message
  -- can be serialized.
  pub login_refused :
      (username password : String) (sid : ℕ) (w : World Json)
      → Serializes lib
      → authenticate_user hasher env username password w.db ≡ none
      → let w' = login_with lib hasher env username password sid w in
        ((w'.sessions sid).sent
          ≡ (w.sessions sid).sent
            ++ response lib env "login" false "Invalid username or password" ∷ [])
        × ((w'.sessions sid).authenticated ≡ (w.sessions sid).authenticated)
        × (w'.db ≡ w.db)
        × (w'.manager ≡ w.manager)
  unfolding login_with
  login_refused name pw sid w s auth =
      let r = response lib env "login" false "Invalid username or password" in
      let (b, dumped) = s.dumps r in
      rw (auth, login_with)
        (
          send-sent lib sid r w b dumped,
          send-authenticated lib sid sid r w,
          send-db lib sid r w,
          send-manager lib sid r w,
        )
