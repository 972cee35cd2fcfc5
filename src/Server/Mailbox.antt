-- ===== src/Server/Mailbox.antt =====
-- Router::deliverMessage and Router::sendStoredMessages of server/router.cpp as steps of mailboxes.
use mathlib.Core.Quot
use mathlib.Core.Quot.{Quot, Quot-set}
use asynchronous_messenger.Base.{
  ℕ, String, true, false, ◌≡◌, ◌≢◌, refl, sym, subst, ap, ◌∙◌, fun_ext, arith, Option, none, some,
  List, [], ◌∷◌, append-nil, ◌==◌, nat_eq, string_eq, if◌then◌else◌, is_empty, Bool-cases,
  Option-cases, inl, inr,
}
use asynchronous_messenger.Json.{JsonLib}
use asynchronous_messenger.Env.{Env, IsHealthy, Orders}
use asynchronous_messenger.Database.{
  Db, User, get_user, new_message, message_of_row, get_offline_messages, delete_offline_messages,
}
use asynchronous_messenger.Database.Messages.{
  waiting, waiting-store_message, get_offline_messages-perm, delete_offline_messages_exact,
  delete_offline-waiting,
}
use asynchronous_messenger.UserManager.{get_session}
use asynchronous_messenger.Session.{World}
use asynchronous_messenger.Session.Store.{send-db}
use asynchronous_messenger.Router.{
  delivery, deliver_to, deliver_message, send_stored_messages, send_all_stored,
}
use asynchronous_messenger.Router.Delivery.{deliver_to-online, stored_delivered}
use asynchronous_messenger.Server.Boxes.{
  bag, Boxes, add, Label, posted, collected, passed, MailStep, post, collect, pass, MailRun, stop,
  next,
}
use asynchronous_messenger.JsonParser.Login.{empty-eq, send_all_stored-db, nothing_waits}

-- What the table holds.
abbrev pub boxes : Db → Boxes
boxes db u = bag (waiting u db)

-- The calls of the router: a message with its sender and its receiver's name, and the stored messages
-- of a user to a session.
pub data RouterCall (Json : Type 0) : Type 0 where
  delivering : Json → ℕ → String → RouterCall Json
  sending_stored : ℕ → ℕ → RouterCall Json

module _ {Json : Type 0} (lib : JsonLib Json) where
  unfoldable pub route : Env → RouterCall Json → World Json → World Json
  unfolding deliver_message send_stored_messages
  route env (delivering message sender to) w = deliver_message lib env message sender to w
  route env (sending_stored user_id sid) w = send_stored_messages lib env user_id sid w

  -- Whether a message is put into a box: its receiver is found and not logged in, and it has a
  -- content.
  abbrev pub posted_to : Env → ℕ → World Json → User → String → Option ℕ → Label
  posted_to env sender w r content none =
      posted r.id (message_of_row (new_message env sender r.id content false false "" w.db))
  posted_to env sender w r content (some session) = passed

  abbrev pub posted_content : Env → ℕ → World Json → User → Option String → Label
  posted_content env sender w r none = passed
  posted_content env sender w r (some content) =
      posted_to env sender w r content (get_session r.id w.manager)

  abbrev pub posted_found : Env → Json → ℕ → World Json → Option User → Label
  posted_found env message sender w none = passed
  posted_found env message sender w (some r) =
      posted_content env sender w r (lib.as_string message "content")

  abbrev pub seen : Env → RouterCall Json → World Json → Label
  seen env (delivering message sender to) w =
      posted_found env message sender w (get_user env to w.db)
  seen env (sending_stored user_id sid) w =
      collected user_id (bag (get_offline_messages env user_id w.db))

  module _ (env : Env) (ok : IsHealthy env) (ordered : Orders env) where
    posted_waits :
        (m : Json) (sender : ℕ) (r : User) (content : String) (w : World Json) (v : ℕ)
        → get_session r.id w.manager ≡ none
        → let msg = message_of_row (new_message env sender r.id content false false "" w.db) in
          (if r.id == v then add msg (boxes w.db v) else boxes w.db v)
          ≡ boxes (deliver_to lib env m sender r.id content w).db v
    unfolding deliver_to add
    posted_waits m s r content w v offline =
        let msg = message_of_row (new_message env s r.id content false false "" w.db) in
        let stored = waiting-store_message env s r.id v content false false "" w.db ok in
        rw (offline, deliver_to)
          (rw stored (elim (Bool-cases (r.id == v)) [
            | inl e ↦ rw e refl
            | inr e ↦ rw e (ap bag (sym (append-nil (waiting v w.db))))
          ]))

    -- A receiver who is not logged in.
    to_box :
        (m : Json) (sender : ℕ) (r : User) (content : String) (w : World Json)
        → get_session r.id w.manager ≡ none
        → MailStep
            (boxes w.db)
            (posted r.id (message_of_row (new_message env sender r.id content false false "" w.db)))
            (boxes (deliver_to lib env m sender r.id content w).db)
    to_box m s r content w offline =
        let msg = message_of_row (new_message env s r.id content false false "" w.db) in
        subst (MailStep (boxes w.db) (posted r.id msg))
          (fun_ext (λ v. posted_waits m s r content w v offline)) (post (boxes w.db) r.id msg)

    -- A receiver who is logged in.
    past_box :
        (m : Json) (sender : ℕ) (r : User) (content : String) (w : World Json) (session : ℕ)
        → get_session r.id w.manager ≡ some session
        → boxes w.db ≡ boxes (deliver_to lib env m sender r.id content w).db
    past_box m s r content w k online =
        let d = delivery lib env m s (stored_delivered lib env s r.id content w.db) in
        fun_ext (λ v. ap bag (
          sym (append-nil (waiting v w.db))
          ∙ sym (waiting-store_message env s r.id v content true false "" w.db ok ∙ ground arith)
          ∙ ap (waiting v) (sym (send-db lib k d _))
          ∙ ap (λ (u : World Json). waiting v u.db)
              (sym (deliver_to-online lib env m s r.id content w k ok online))))

    left_behind :
        (user_id sid v : ℕ) (w : World Json)
        → (if user_id == v then bag [] else boxes w.db v)
          ≡ boxes (send_stored_messages lib env user_id sid w).db v
    unfolding send_stored_messages
    left_behind u sid v w =
        let ms = get_offline_messages env u w.db in
        let w' = send_all_stored lib env ms sid w in
        let same : w'.db ≡ w.db = send_all_stored-db lib env ms sid w in
        elim (Bool-cases (is_empty ms)) [
          | inl none_wait ↦
              rw (none_wait, send_stored_messages)
                (elim (Bool-cases (u == v)) [
                  | inl e ↦ rw e (
                      ap bag (
                        sym (nothing_waits lib env u w.db ok ordered (empty-eq ms none_wait))
                        ∙ ap (λ k. waiting k w.db) ((nat_eq.same_iff u v).0 e)))
                  | inr e ↦ rw e refl
                ])
          | inr some_wait ↦
              rw (some_wait, send_stored_messages)
                (elim (Bool-cases (u == v)) [
                  | inl e ↦ rw e (
                      ap bag (
                        sym (delete_offline-waiting env u w'.db ok)
                        ∙ ap (λ k. waiting k (delete_offline_messages env u w'.db).1)
                            ((nat_eq.same_iff u v).0 e)))
                  | inr e ↦
                      let ne : u ≢ v = λ same_user. absurd (ground (arith, e, same_user)) in
                      rw e (
                        ap bag (
                          ap (waiting v) (sym same)
                          ∙ sym (delete_offline_messages_exact env u v w'.db ok ne).2))
                ])
        ]

    -- A call of the router is a step of the mailboxes.
    pub route-MailStep :
        (call : RouterCall Json) (w : World Json)
        → MailStep (boxes w.db) (seen env call w) (boxes (route env call w).db)
    unfolding route deliver_message
    route-MailStep (delivering m s to) w = elim (Option-cases (get_user env to w.db)) [
      | inl unknown ↦ rw (unknown, deliver_message) (pass (boxes w.db))
      | inr (r, found) ↦ elim (Option-cases (lib.as_string m "content")) [
        | inl no_text ↦ rw (found, deliver_message, no_text) (pass (boxes w.db))
        | inr (content, filled) ↦ elim (Option-cases (get_session r.id w.manager)) [
          | inl offline ↦
              rw (found, deliver_message, filled, offline) (to_box m s r content w offline)
          | inr (k, online) ↦
              rw (found, deliver_message, filled, online)
                (subst (MailStep (boxes w.db) passed) (past_box m s r content w k online)
                  (pass (boxes w.db)))
        ]
      ]
    ]
    route-MailStep (sending_stored u sid) w =
        let read : bag (waiting u w.db) ≡ bag (get_offline_messages env u w.db) =
          sym (Quot.sound (get_offline_messages-perm env u w.db ok ordered)) in
        subst (λ l. MailStep (boxes w.db) l (boxes (send_stored_messages lib env u sid w).db))
          (ap (collected u) read)
          (subst (MailStep (boxes w.db) (collected u (boxes w.db u)))
            (fun_ext (λ v. left_behind u sid v w)) (collect (boxes w.db) u))

  -- Calls of the router, one after the other, and what is seen of them.
  unfoldable pub route_all : List (Env × RouterCall Json) → World Json → World Json
  unfolding route
  route_all [] w = w
  route_all ((env, call) ∷ calls) w = route_all calls (route env call w)

  unfoldable pub seen_all : List (Env × RouterCall Json) → World Json → List Label
  unfolding route
  seen_all [] w = []
  seen_all ((env, call) ∷ calls) w = seen env call w ∷ seen_all calls (route env call w)

  -- SQLite works in all of them.
  abbrev pub AllWork : List (Env × RouterCall Json) → Type 0
  AllWork [] = Unit
  AllWork ((env, call) ∷ calls) = IsHealthy env × Orders env × AllWork calls

  -- While SQLite works and ORDER BY returns the rows that it is given, any calls of the router,
  -- in any order, are a run of a system of mailboxes, one bag of messages to a user, in which
  -- the order of the messages is forgotten: a message puts itself into the box of its receiver,
  -- if the receiver is found and not logged in and it has a content, and changes no box
  -- otherwise; the stored messages that are read for a user are what is in the user's box,
  -- which is then empty, and no other box changes.
  pub route_all-MailRun :
      (calls : List (Env × RouterCall Json)) (w : World Json)
      → AllWork calls
      → MailRun (boxes w.db) (seen_all calls w) (boxes (route_all calls w).db)
  unfolding route_all seen_all
  route_all-MailRun [] w works = stop (boxes w.db)
  route_all-MailRun ((env, call) ∷ calls) w (ok, ordered, works) =
      next (route-MailStep env ok ordered call w) (route_all-MailRun calls (route env call w) works)
