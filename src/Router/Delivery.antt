-- ===== src/Router/Delivery.antt =====
-- Router::deliverMessage of server/router.cpp: receivers who are logged in and who are not, and
-- the copy that is sent.
use asynchronous_messenger.Base.{
  ℕ, ◌+◌, String, Bool, true, false, ◌≡◌, refl, ◌≢◌, ap, ◌∙◌, Option, none, some, List, [], ◌∷◌,
  ◌++◌, append-nil, arith, ◌==◌, nat_eq, string_eq, if◌then◌else◌,
}
use asynchronous_messenger.Json.{JsonLib, JsonLaws, text, flag, number}
use asynchronous_messenger.Env.{Env, IsHealthy}
use asynchronous_messenger.Database.{
  Db, User, get_user, get_user_by_id, store_message, new_message, message_of_row,
}
use asynchronous_messenger.Database.Messages.{
  waiting, waiting-store_message, store_message-messages,
}
use asynchronous_messenger.UserManager.{get_session}
use asynchronous_messenger.Session.{World, send}
use asynchronous_messenger.Session.Store.{send-db, send-sent, send-other}
use asynchronous_messenger.Router.{delivery, deliver_to, deliver_message}

module _ {Json : Type 0} (lib : JsonLib Json) (env : Env) where
  pub deliver_message-to :
      (m : Json) (sender : ℕ) (to : String) (w : World Json) (receiver : User) (content : String)
      → get_user env to w.db ≡ some receiver
      → lib.as_string m "content" ≡ some content
      → deliver_message lib env m sender to w ≡ deliver_to lib env m sender receiver.id content w
  unfolding deliver_message
  deliver_message-to m s to w r c found filled = rw (found, deliver_message, filled) refl

  pub deliver_offline-db :
      (m : Json) (sender : ℕ) (to : String) (w : World Json) (receiver : User) (content : String)
      → IsHealthy env
      → get_user env to w.db ≡ some receiver
      → lib.as_string m "content" ≡ some content
      → get_session receiver.id w.manager ≡ none
      → (deliver_message lib env m sender to w).db ≡ record w.db {
        messages =
            w.db.messages ++ new_message env sender receiver.id content false false "" w.db ∷ [];
        next_message_id = w.db.next_message_id + 1;
      }
  unfolding deliver_to
  deliver_offline-db m s to w r c ok found filled offline =
      rw (deliver_message-to m s to w r c found filled) (
        rw (offline, deliver_to)
          (ap (λ (o : Bool × Db). o.1)
            (store_message-messages env s r.id c false false "" w.db ok)))

  -- A message to a user who is not logged in, while SQLite works, is stored and waits for that
  -- user behind the messages that wait already; nothing more waits for anybody else, and no
  -- session and no login changes.
  pub deliver_offline :
      (m : Json) (sender : ℕ) (to : String) (w : World Json) (receiver : User) (content : String)
      (other : ℕ)
      → IsHealthy env
      → get_user env to w.db ≡ some receiver
      → lib.as_string m "content" ≡ some content
      → get_session receiver.id w.manager ≡ none
      → receiver.id ≢ other
      → let w' = deliver_message lib env m sender to w in
        (waiting receiver.id w'.db
          ≡ waiting receiver.id w.db
            ++ message_of_row (new_message env sender receiver.id content false false "" w.db) ∷ [])
        × (waiting other w'.db ≡ waiting other w.db)
        × (w'.sessions ≡ w.sessions)
        × (w'.manager ≡ w.manager)
  unfolding deliver_to
  deliver_offline m s to w r c v ok found filled offline ne =
      rw (deliver_message-to m s to w r c found filled) (
        rw (offline, deliver_to)
          (
            waiting-store_message env s r.id r.id c false false "" w.db ok ∙ ground arith,
            waiting-store_message env s r.id v c false false "" w.db ok
                ∙ ground (arith, append-nil (waiting v w.db)),
            refl,
            refl,
          ))

  -- The database after a message was stored as delivered.
  abbrev pub stored_delivered : ℕ → ℕ → String → Db → Db
  stored_delivered sender receiver content db =
      (store_message env sender receiver content true false "" db).1

  pub deliver_to-online :
      (m : Json) (sender receiver : ℕ) (content : String) (w : World Json) (session : ℕ)
      → IsHealthy env
      → get_session receiver w.manager ≡ some session
      → deliver_to lib env m sender receiver content w
        ≡ send lib session
            (delivery lib env m sender (stored_delivered sender receiver content w.db))
            (record w { db = stored_delivered sender receiver content w.db })
  unfolding deliver_to
  deliver_to-online m s r c w k ok online =
      let stored : (store_message env s r c true false "" w.db).0 ≡ true =
        ap (λ (o : Bool × Db). o.0) (store_message-messages env s r c true false "" w.db ok) in
      rw (online, deliver_to, stored) refl

  -- A message to a user who is logged in, while SQLite works and the message can be serialized,
  -- is sent on that user's session and on no other, and is stored as delivered, so that what
  -- waits for anybody is as before.
  pub deliver_online :
      (m : Json) (sender : ℕ) (to : String) (w : World Json) (receiver : User) (content : String)
      (session other user_id : ℕ) (bytes : List ℕ)
      → IsHealthy env
      → get_user env to w.db ≡ some receiver
      → lib.as_string m "content" ≡ some content
      → get_session receiver.id w.manager ≡ some session
      → lib.dump (delivery lib env m sender (stored_delivered sender receiver.id content w.db))
        ≡ some bytes
      → session ≢ other
      → let w' = deliver_message lib env m sender to w in
        ((w'.sessions session).sent
          ≡ (w.sessions session).sent
            ++ delivery lib env m sender (stored_delivered sender receiver.id content w.db) ∷ [])
        × (w'.sessions other ≡ w.sessions other)
        × (waiting user_id w'.db ≡ waiting user_id w.db)
        × (w'.db.messages
            ≡ w.db.messages ++ new_message env sender receiver.id content true false "" w.db ∷ [])
  deliver_online m s to w r c k other u b ok found filled online dumps ne =
      let db' = stored_delivered s r.id c w.db in
      let d = delivery lib env m s db' in
      rw (deliver_message-to m s to w r c found filled ∙ deliver_to-online m s r.id c w k ok online)
        (
          send-sent lib k d _ b dumps,
          send-other lib k other d _ ne,
          ap (waiting u) (send-db lib k d (record w { db = db' }))
              ∙ waiting-store_message env s r.id u c true false "" w.db ok
              ∙ ground (arith, append-nil (waiting u w.db)),
          ap (λ (x : Db). x.messages)
              (send-db lib k d (record w { db = db' })
                ∙ ap (λ (o : Bool × Db). o.1)
                    (store_message-messages env s r.id c true false "" w.db ok)),
        )

module _ {Json : Type 0} (lib : JsonLib Json) (laws : JsonLaws lib) (env : Env) where
  stamped_settable :
      (m : Json)
      → lib.contains m "type" ≡ true
      → lib.is_settable (lib.put (lib.put m "timestamp" (number env.time)) "delivered" (flag true))
        ≡ true
  stamped_settable m typed =
      laws.put_settable _ _ _ (laws.put_settable m _ _ (laws.contains_settable m "type" typed))

  delivery-string :
      (m : Json) (sender : ℕ) (db : Db) (user : User) (key : String)
      → lib.contains m "type" ≡ true
      → get_user_by_id env sender db ≡ some user
      → lib.as_string (delivery lib env m sender db) key ≡ (
          if "from" == key
          then some user.username
          else if "delivered" == key
          then none
          else if "timestamp" == key
          then none
          else lib.as_string m key)
  unfolding delivery
  delivery-string m s db user key typed found =
      rw (found, delivery)
        (laws.string_put _ "from" key (text user.username) (stamped_settable m typed)
          ∙ ap (λ (t : Option String). if "from" == key then some user.username else t)
              (laws.string_put _ "delivered" key (flag true)
                  (laws.put_settable m _ _ (laws.contains_settable m "type" typed))
                ∙ ap (λ (t : Option String). if "delivered" == key then none else t)
                    (laws.string_put m "timestamp" key _ (laws.contains_settable m "type" typed))))

  delivery-flag :
      (m : Json) (sender : ℕ) (db : Db) (user : User)
      → lib.contains m "type" ≡ true
      → get_user_by_id env sender db ≡ some user
      → lib.as_bool (delivery lib env m sender db) "delivered" ≡ some true
  unfolding delivery
  delivery-flag m s db user typed found =
      rw (found, delivery)
        (laws.bool_put _ "from" "delivered" (text user.username) (stamped_settable m typed)
          ∙ laws.bool_put _ "delivered" "delivered" (flag true)
              (laws.put_settable m _ _ (laws.contains_settable m "type" typed)))

  -- What an online receiver reads: the sender's name as the database has it, whatever name the
  -- client wrote, the content and the type as they were sent, and the mark of delivery, if the
  -- message has a type and the sender is found.
  pub delivery_fields :
      (m : Json) (sender : ℕ) (db : Db) (user : User)
      → lib.contains m "type" ≡ true
      → get_user_by_id env sender db ≡ some user
      → (lib.as_string (delivery lib env m sender db) "from" ≡ some user.username)
        × (lib.as_string (delivery lib env m sender db) "content" ≡ lib.as_string m "content")
        × (lib.as_string (delivery lib env m sender db) "type" ≡ lib.as_string m "type")
        × (lib.as_bool (delivery lib env m sender db) "delivered" ≡ some true)
  delivery_fields m s db user typed found = (
    delivery-string m s db user "from" typed found,
    delivery-string m s db user "content" typed found,
    delivery-string m s db user "type" typed found,
    delivery-flag m s db user typed found,
  )
