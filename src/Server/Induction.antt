-- ===== src/Server/Induction.antt =====
-- The handlers of server/json_parser.cpp and server/router.cpp change the world by five
-- operations only; what these keep is the hypothesis of the section.
use asynchronous_messenger.Base.{
  ◌⊎◌, ℕ, String, Bool, true, false, not, ◌||◌, ◌≡◌, ◌∙◌, ap, refl, some, List, [], ◌∷◌, ◌==◌,
  string_eq, Option-cases, if_cases, bind_cases, inl, inr, is_empty, arith, try◌catch◌,
}
use asynchronous_messenger.Base.Map.{find}
use asynchronous_messenger.Json.{JsonLib}
use asynchronous_messenger.Env.{Env}
use asynchronous_messenger.Database.{
  Db, Message, get_user, store_message, delete_offline_messages, get_offline_messages,
}
use asynchronous_messenger.UserManager.{
  UserManager, find_username, register_user, authenticate_user, get_session,
  get_session_by_username,
}
use asynchronous_messenger.Session.{World, send}
use asynchronous_messenger.Router.{
  delivery, deliver_to, deliver_message, route_message, send_typing_status, send_all_stored,
  send_stored_messages,
}
use asynchronous_messenger.Server.Composed.{
  Subject, registration, login, chat, problem, Composed, answered, relayed, told,
  kept as kept_message,
}
use asynchronous_messenger.JsonParser.{
  handle_message, handle_typing, handle_register, bind_session, login_with, handle_login,
  parse_message, send_response, is_session_authenticated,
}

-- A request sends to its own session, and to sessions that a user is logged in from.
abbrev pub Addressable : {Json : Type 0} → ℕ → ℕ → World Json → Type 0
Addressable self sid w = (sid ≡ self) ⊎ ((i : ℕ) × (find i w.manager.active_sessions ≡ some sid))

by_username :
    (name : String) (m : UserManager) (k : ℕ)
    → get_session_by_username name m ≡ some k
    → (i : ℕ) × (find i m.active_sessions ≡ some k)
unfolding get_session_by_username
by_username name m k h = elim (Option-cases (find_username name m.user_id_to_username)) [
  | inl e ↦ absurd (ground (arith, e))
  | inr (i, e) ↦ (i, ground (arith, e))
]

by_id :
    (r : ℕ) (m : UserManager) (k : ℕ) → get_session r m ≡ some k → find r m.active_sessions ≡ some k
unfolding get_session
by_id r m k h = h

-- `P` is kept by the five operations that change the world, when session `self` makes a request.
pub record Kept {Json : Type 0} (lib : JsonLib Json) (hasher : String → ℕ) (env : Env) (self : ℕ)
    (P : World Json → Type 0) : Type 0 where
  pub on_send :
      (sid : ℕ) (m : Json) (w : World Json)
      → Addressable self sid w
      → Composed lib m
      → P w
      → P (send lib sid m w)
  pub on_register :
      (u e p : String) (w : World Json)
      → P w
      → P (record w { db = (register_user hasher env u e p w.db).1 })
  pub on_store :
      (s r : ℕ) (c : String) (d : Bool) (w : World Json)
      → P w
      → P (record w { db = (store_message env s r c d false "" w.db).1 })
  pub on_delete :
      (u : ℕ) (w : World Json) → P w → P (record w { db = (delete_offline_messages env u w.db).1 })
  pub on_bind :
      (u : ℕ) (name password : String) (w : World Json)
      → authenticate_user hasher env name password w.db ≡ some u
      → P w
      → P (bind_session self u name w)

module _ {Json : Type 0} (lib : JsonLib Json) (hasher : String → ℕ) (env : Env) (self : ℕ) where
  module _ {P : World Json → Type 0} (kept : Kept lib hasher env self P) where
    open kept use {on_send, on_register, on_store, on_delete, on_bind}

    response_keeps :
        {type : String} (ok : Bool) (m : String) (w : World Json)
        → Subject type
        → P w
        → P (send_response lib env self type ok m w)
    unfolding send_response
    response_keeps ok m w subject h = on_send self _ w (inl refl) (answered env ok m subject) h

    deliver_to_keeps :
        (m : Json) (s r : ℕ) (c : String) (w : World Json)
        → ((db : Db) → Composed lib (delivery lib env m s db))
        → P w
        → P (deliver_to lib env m s r c w)
    unfolding deliver_to
    deliver_to_keeps m s r c w composed h = elim (Option-cases (get_session r w.manager)) [
      | inl e ↦ rw (e, deliver_to) (on_store s r c false w h)
      | inr (k, e) ↦
          rw (e, deliver_to)
            (if_cases P (store_message env s r c true false "" w.db).0 _ _
              (λ _.
                on_send k _ _ (inr (r, by_id r w.manager k e)) (composed _)
                  (on_store s r c true w h))
              (λ _. on_store s r c true w h))
    ]

    deliver_keeps :
        (m : Json) (s : ℕ) (to : String) (w : World Json)
        → lib.contains m "type" ≡ true
        → lib.as_string m "type" ≡ some "message"
        → P w
        → P (deliver_message lib env m s to w)
    unfolding deliver_message
    deliver_keeps m s to w has_type typed h = elim (Option-cases (get_user env to w.db)) [
      | inl e ↦ rw (e, deliver_message) h
      | inr (user, e) ↦
          rw (e, deliver_message)
            (bind_cases P (lib.as_string m "content") _ w h (λ c content.
              deliver_to_keeps m s user.id c w (λ db. relayed env m s db c has_type typed content)
                h))
    ]

    route_keeps :
        (m : Json) (s : ℕ) (w : World Json)
        → lib.contains m "type" ≡ true
        → P w
        → P (route_message lib env m s w)
    unfolding route_message
    route_keeps m s w has_type h = bind_cases P (lib.as_string m "type") _ w h λ t typed.
        if_cases (λ o. P (try o catch w)) (t == "message") _ _
          (λ is. bind_cases P (lib.as_string m "to") _ w h (λ to _.
            deliver_keeps m s to w has_type
              (typed ∙ ap some ((string_eq.same_iff t "message").0 is)) h))
          (λ _. h)

    message_keeps :
        (m : Json) (w : World Json)
        → lib.contains m "type" ≡ true
        → P w
        → P (handle_message lib env m self w)
    unfolding handle_message
    message_keeps m w has_type h =
        if_cases P (not (is_session_authenticated lib env self w)) _ _
          (λ _. response_keeps _ _ w chat h)
          λ _.
            if_cases P (not (lib.contains m "to") || not (lib.contains m "content")) _ _
              (λ _. response_keeps _ _ w chat h)
              λ _. response_keeps _ _ _ chat (route_keeps m _ w has_type h)

    typing_keeps : (m : Json) (w : World Json) → P w → P (handle_typing lib env m self w)
    unfolding handle_typing send_typing_status
    typing_keeps m w h =
        if_cases P (not (is_session_authenticated lib env self w)) _ _ (λ _. h)
          λ _.
            if_cases P (not (lib.contains m "to") || not (lib.contains m "is_typing")) _ _ (λ _. h)
              λ _. bind_cases P (lib.as_string m "to") _ w h λ to _.
                bind_cases P (lib.as_bool m "is_typing") _ w h λ b _.
                  elim (Option-cases (get_session_by_username to w.manager)) [
                    | inl e ↦ rw (e, send_typing_status) h
                    | inr (k, e) ↦
                        rw (e, send_typing_status)
                          (on_send k _ w (inr (by_username to w.manager k e)) (told env _ b) h)
                  ]

    register_keeps : (m : Json) (w : World Json) → P w → P (handle_register lib hasher env m self w)
    unfolding handle_register
    register_keeps m w h =
        if_cases P
          (not (lib.contains m "username")
            || not (lib.contains m "email")
            || not (lib.contains m "password"))
          _ _ (λ _. response_keeps _ _ w registration h)
          λ _.
            bind_cases P (lib.as_string m "username") _ _ (response_keeps _ _ w registration h)
              λ u _.
                bind_cases P (lib.as_string m "email") _ _ (response_keeps _ _ w registration h)
                  λ e _.
                    bind_cases P (lib.as_string m "password") _ _
                      (response_keeps _ _ w registration h)
                      λ p _.
                        if_cases P ((register_user hasher env u e p w.db).0) _ _
                          (λ _. response_keeps _ _ _ registration (on_register u e p w h))
                          (λ _. response_keeps _ _ _ registration (on_register u e p w h))

    stored_keeps :
        (ms : List Message) (w : World Json) → P w → P (send_all_stored lib env ms self w)
    unfolding send_all_stored
    stored_keeps [] w h = h
    stored_keeps (m ∷ ms) w h =
        stored_keeps ms _ (on_send self _ w (inl refl) (kept_message env _ m) h)

    send_stored_keeps : (u : ℕ) (w : World Json) → P w → P (send_stored_messages lib env u self w)
    unfolding send_stored_messages
    send_stored_keeps u w h =
        if_cases P (is_empty (get_offline_messages env u w.db)) _ _ (λ _. h)
          (λ _. on_delete u _ (stored_keeps _ w h))

    login_keeps : (m : Json) (w : World Json) → P w → P (handle_login lib hasher env m self w)
    unfolding handle_login
    login_keeps m w h =
        if_cases P (not (lib.contains m "username") || not (lib.contains m "password")) _ _
          (λ _. response_keeps _ _ w login h)
          λ _. bind_cases P (lib.as_string m "username") _ _ (response_keeps _ _ w login h) λ u _.
            bind_cases P (lib.as_string m "password") _ _ (response_keeps _ _ w login h) λ p _.
              elim (Option-cases (authenticate_user hasher env u p w.db)) [
                | inl e ↦ rw (e, login_with) (response_keeps _ _ w login h)
                | inr (i, e) ↦
                    rw (e, login_with)
                      (send_stored_keeps i _ (response_keeps _ _ _ login (on_bind i u p w e h)))
              ]

    -- Every request keeps what the five operations keep.
    pub parse_message_keeps :
        (raw : List ℕ) (w : World Json) → P w → P (parse_message lib hasher env raw self w)
    unfolding parse_message
    parse_message_keeps raw w h = elim (Option-cases (lib.parse raw)) [
      | inl e ↦ rw (e, parse_message) (response_keeps _ _ w problem h)
      | inr (m, e) ↦ elim (Option-cases (lib.dump m)) [
        | inl d ↦ rw (e, parse_message, d) (response_keeps _ _ w problem h)
        | inr (b, d) ↦
            rw (e, parse_message, d)
              (if_cases P (not (lib.contains m "type")) _ _ (λ _. response_keeps _ _ w problem h)
                λ has_type.
                  bind_cases P (lib.as_string m "type") _ _ (response_keeps _ _ w problem h) λ t _.
                    if_cases P (t == "register") _ _ (λ _. register_keeps m w h)
                      λ _.
                        if_cases P (t == "login") _ _ (λ _. login_keeps m w h)
                          λ _.
                            if_cases P (t == "message") _ _
                              (λ _. message_keeps m w (ground (arith, has_type)) h)
                              λ _.
                                if_cases P (t == "typing") _ _ (λ _. typing_keeps m w h)
                                  (λ _. response_keeps _ _ w problem h))
      ]
    ]
