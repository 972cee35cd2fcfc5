-- ===== src/Server/Invariant.antt =====
-- The state of the server between two events: accounts, the maps of sessions, and the sessions.
use asynchronous_messenger.Base.{
  ℕ, ◌+◌, ◌<◌, String, Bool, true, false, ◌≡◌, refl, ◌∙◌, sym, none, some, List, arith, ◌==◌,
  nat_eq, if◌then◌else◌, if_cases, c_str, ◌++◌,
}
use asynchronous_messenger.Base.Map.{find}
use asynchronous_messenger.Json.{JsonLib}
use asynchronous_messenger.Env.{Env, insert_message, delete_offline}
use asynchronous_messenger.Database.{Db, store_message, delete_offline_messages}
use asynchronous_messenger.Database.Users.{IsWellFormed}
use asynchronous_messenger.UserManager.{remove_session}
use asynchronous_messenger.UserManager.Accounts.{register_user-IsWellFormed}
use asynchronous_messenger.UserManager.Sessions.{
  IsAligned, add_session-IsAligned, remove_session-IsAligned, active-add_session,
  active-remove_session,
}
use asynchronous_messenger.Session.{World, send, set_session, close, set_authenticated, new_session}
use asynchronous_messenger.Session.Store.{
  send-db, send-manager, send-next_session, send-authenticated,
}
use asynchronous_messenger.JsonParser.{bind_session, parse_message}
use asynchronous_messenger.Server.{
  Event, accepted, received, read_failed, write_failed, step, do_read,
}
use asynchronous_messenger.Server.Induction.{Kept, parse_message_keeps}
use asynchronous_messenger.Wire.Frames.{receive_total, split, handle_all, handle_all_keeps}

-- The table keeps its constraints; the maps of the UserManager hold the same users; the session of a
-- logged-in user was accepted and is authenticated.
pub record Inv {Json : Type 0} (w : World Json) : Type 0 where
  pub users : IsWellFormed w.db
  pub aligned : IsAligned w.manager
  pub live :
      (i s : ℕ)
      → find i w.manager.active_sessions ≡ some s
      → ((w.sessions s).authenticated ≡ true) × (s < w.next_session)

store_message-IsWellFormed :
    (env : Env) (s r : ℕ) (c : String) (d : Bool) (db : Db)
    → IsWellFormed db
    → IsWellFormed (store_message env s r c d false "" db).1
unfolding store_message
store_message-IsWellFormed env s r c d db h =
    if_cases (λ (o : Bool × Db). IsWellFormed o.1) (env.prepares (insert_message s r (c_str c))) _ _
      (λ _.
        if_cases (λ (o : Bool × Db). IsWellFormed o.1) (env.steps (insert_message s r (c_str c)) 0)
          _ _ (λ _. record { distinct = h.distinct; issued = h.issued }) (λ _. h))
      (λ _. h)

delete_offline-IsWellFormed :
    (env : Env) (u : ℕ) (db : Db)
    → IsWellFormed db
    → IsWellFormed (delete_offline_messages env u db).1
unfolding delete_offline_messages
delete_offline-IsWellFormed env u db h =
    if_cases (λ (o : Bool × Db). IsWellFormed o.1) (env.prepares (delete_offline u)) _ _
      (λ _.
        if_cases (λ (o : Bool × Db). IsWellFormed o.1) (env.steps (delete_offline u) 0) _ _
          (λ _. record { distinct = h.distinct; issued = h.issued }) (λ _. h))
      (λ _. h)

module _ {Json : Type 0} where
  Inv-db : (w : World Json) (db : Db) → IsWellFormed db → Inv w → Inv (record w { db = db })
  Inv-db w db u h = record { users = u; aligned = h.aligned; live = h.live }

  send-Inv :
      (lib : JsonLib Json) (sid : ℕ) (m : Json) (w : World Json) → Inv w → Inv (send lib sid m w)
  send-Inv lib sid m w h = record {
    users = rw (send-db lib sid m w) h.users;
    aligned = rw (send-manager lib sid m w) h.aligned;
    live = λ i s e.
        rw (send-authenticated lib sid s m w, send-next_session lib sid m w)
          (h.live i s (rw (send-manager lib sid m w) at e));
  }

  bind_session-Inv :
      (sid u : ℕ) (name : String) (w : World Json)
      → sid < w.next_session
      → Inv w
      → Inv (bind_session sid u name w)
  unfolding bind_session set_authenticated
  bind_session-Inv sid u name w lt h = record {
    users = h.users;
    aligned = add_session-IsAligned u name sid w.manager h.aligned;
    live = λ i s e.
        let e' : (if u == i then some sid else find i w.manager.active_sessions) ≡ some s =
          sym (active-add_session u i name sid w.manager) ∙ e in
        ground (arith, e', h.live i s);
  }

  closing-Inv :
      (sid : ℕ) (w : World Json)
      → Inv w
      → Inv (set_session sid (record (w.sessions sid) { closing = true }) w)
  unfolding set_session
  closing-Inv sid w h = record {
    users = h.users;
    aligned = h.aligned;
    live = λ i s e. ground (arith, h.live i s);
  }

  remove_session-Inv :
      (u : ℕ) (w : World Json) → Inv w → Inv (record w { manager = remove_session u w.manager })
  remove_session-Inv u w h = record {
    users = h.users;
    aligned = remove_session-IsAligned u w.manager h.aligned;
    live = λ i s e.
        let e' : (if u == i then none else find i w.manager.active_sessions) ≡ some s =
          sym (active-remove_session u i w.manager) ∙ e in
        ground (arith, e', h.live i s);
  }

  close-Inv : (sid : ℕ) (w : World Json) → Inv w → Inv (close sid w)
  unfolding close
  close-Inv sid w h =
      if_cases Inv (w.sessions sid).closing _ _ (λ _. h)
        λ _.
          if_cases Inv (w.sessions sid).authenticated _ _
            (λ _. remove_session-Inv (w.sessions sid).user_id _ (closing-Inv sid w h))
            (λ _. closing-Inv sid w h)

  accept-Inv :
      (w : World Json)
      → Inv w
      → Inv
          (record (set_session w.next_session new_session w) { next_session = w.next_session + 1 })
  unfolding set_session
  accept-Inv w h = record {
    users = h.users;
    aligned = h.aligned;
    live = λ i s e. ground (arith, h.live i s);
  }

abbrev Accepted : {Json : Type 0} → ℕ → World Json → Type 0
Accepted self w = Inv w × (self < w.next_session)

module _ {Json : Type 0} (lib : JsonLib Json) (hasher : String → ℕ) (env : Env) where
  request-Accepted : (self : ℕ) → Kept lib hasher env self (Accepted self)
  unfolding bind_session set_authenticated
  request-Accepted self = record {
    on_send =
        λ sid m w to composed h. (send-Inv lib sid m w h.0, rw (send-next_session lib sid m w) h.1);
    on_register = λ u e p w h.
        (Inv-db w _ (register_user-IsWellFormed hasher env u e p w.db h.0.users) h.0, h.1);
    on_store = λ s r c d w h.
        (Inv-db w _ (store_message-IsWellFormed env s r c d w.db h.0.users) h.0, h.1);
    on_delete = λ u w h. (Inv-db w _ (delete_offline-IsWellFormed env u w.db h.0.users) h.0, h.1);
    on_bind = λ u name p w e h. (bind_session-Inv self u name w h.1 h.0, h.1);
  }

  -- The loop of a read, by the texts that it handles.
  pub do_read-handled :
      (sid : ℕ) (chunk : List ℕ) (w : World Json)
      → let texts = split ((w.sessions sid).message_buffer ++ chunk) in
        let w' = handle_all (λ m. parse_message lib hasher env m sid) w texts.0 in
        do_read lib hasher env sid chunk w
        ≡ set_session sid (record (w'.sessions sid) { message_buffer = texts.1 }) w'
  unfolding do_read
  do_read-handled sid chunk w =
      rw
        (
          receive_total (λ m. parse_message lib hasher env m sid) (w.sessions sid).message_buffer
              chunk w,
          do_read,
        )
        refl

  buffer-Inv :
      (sid : ℕ) (rest : List ℕ) (w : World Json)
      → Inv w
      → Inv (set_session sid (record (w.sessions sid) { message_buffer = rest }) w)
  unfolding set_session
  buffer-Inv sid rest w h = record {
    users = h.users;
    aligned = h.aligned;
    live = λ i s e. ground (arith, h.live i s);
  }

  do_read-Inv :
      (sid : ℕ) (chunk : List ℕ) (w : World Json)
      → sid < w.next_session
      → Inv w
      → Inv (do_read lib hasher env sid chunk w)
  do_read-Inv sid chunk w lt h = rw (do_read-handled sid chunk w) (
      buffer-Inv sid _ _
        (handle_all_keeps (Accepted sid) (λ m. parse_message lib hasher env m sid)
          (λ m v. parse_message_keeps lib hasher env sid (request-Accepted sid) m v) w
          (split ((w.sessions sid).message_buffer ++ chunk)).0 (h, lt)).0)

-- An event of a session that was accepted.
abbrev pub Possible : {Json : Type 0} → World Json → Event → Type 0
Possible w accepted = Unit {0}
Possible w (received sid chunk) = sid < w.next_session
Possible w (read_failed sid) = sid < w.next_session
Possible w (write_failed sid) = sid < w.next_session

-- Every event that can happen keeps the invariant, whatever the client sends and SQLite does.
pub step-Inv :
    {Json : Type 0} (lib : JsonLib Json) (hasher : String → ℕ) (env : Env) (e : Event)
    (w : World Json)
    → Possible w e
    → Inv w
    → Inv (step lib hasher env e w)
unfolding step
step-Inv lib hasher env accepted w p h = accept-Inv w h
step-Inv lib hasher env (received sid chunk) w p h = do_read-Inv lib hasher env sid chunk w p h
step-Inv lib hasher env (read_failed sid) w p h = close-Inv sid w h
step-Inv lib hasher env (write_failed sid) w p h = close-Inv sid w h
