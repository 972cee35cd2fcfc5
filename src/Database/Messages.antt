-- ===== src/Database/Messages.antt =====
-- The `messages` table of server/database.cpp: storeMessage, getOfflineMessages,
-- deleteOfflineMessages and getMessages, by the messages that wait for a user.
use mathlib.Core.List.Perm
use mathlib.Core.List.{
  Mem, Mem-prop, mem-cons, mem-cons_self, mem-cons_of_mem, not-mem-nil, map-append,
}
use mathlib.Core.Logic.Or
use mathlib.Core.Bool.{Bool-set}
use asynchronous_messenger.Base.{
  ℕ, zero, suc, ◌≢◌, ◌+◌, ◌^◌, ◌≤◌, ◌<◌, String, Bool, true, false, not, ◌&&◌, ◌||◌, ◌≡◌, refl, ap,
  List, [], ◌∷◌, ◌++◌, map, arith, ◌==◌, nat_eq, ltb, if◌then◌else◌, take, length, where_rows,
  where_rows-append, c_str, Perm, Bool-cases, inl, inr,
}
use asynchronous_messenger.Env.{
  Env, MessageRow, IsHealthy, Orders, insert_message, select_offline, delete_offline,
  select_conversation,
}
use asynchronous_messenger.Database.{
  Db, Message, message_of_row, new_message, store_message, fetch, between, limited, get_messages,
  pending, get_offline_messages, delete_offline_messages,
}

-- The messages that wait for a user, in the order of the table.
abbrev pub waiting : ℕ → Db → List Message
waiting user_id db = map message_of_row (where_rows (pending user_id) db.messages)

pub fetch_all :
    (steps : ℕ → Bool) (i : ℕ) (rs : List MessageRow)
    → ((k : ℕ) → steps k ≡ true)
    → fetch steps i rs ≡ map message_of_row rs
unfolding fetch
fetch_all steps i [] h = refl
fetch_all steps i (r ∷ rs) h = rw (h i) (ap (◌∷◌ (message_of_row r)) (fetch_all steps (i + 1) rs h))

pub get_offline_messages-perm :
    (env : Env) (user_id : ℕ) (db : Db)
    → IsHealthy env
    → Orders env
    → Perm (get_offline_messages env user_id db) (waiting user_id db)
unfolding get_offline_messages
get_offline_messages-perm env i db ok o = rw (ok.prepares_all (select_offline i)) (
    rw
      (fetch_all (env.steps (select_offline i)) 0
        (env.order_asc (where_rows (pending i) db.messages)) (ok.steps_all (select_offline i)))
      (Perm.map _ (o.order_asc-perm _)))

pub store_message-messages :
    (env : Env) (sender receiver : ℕ) (content : String) (delivered file : Bool) (path : String)
    (db : Db)
    → IsHealthy env
    → store_message env sender receiver content delivered file path db ≡ (
      true,
      record db {
        messages =
            db.messages ++ new_message env sender receiver content delivered file path db ∷ [];
        next_message_id = db.next_message_id + 1;
      },
    )
unfolding store_message
store_message-messages env s r c d f p db ok =
    rw (
      ok.prepares_all (insert_message s r (c_str c)),
      ok.steps_all (insert_message s r (c_str c)) 0,
    )

-- While SQLite works, storing a message lets it wait for its receiver, behind the ones that wait
-- already, exactly if it was stored as not delivered; what waits for others is as before.
pub waiting-store_message :
    (env : Env) (sender receiver user_id : ℕ) (content : String) (delivered file : Bool)
    (path : String) (db : Db)
    → IsHealthy env
    → waiting user_id (store_message env sender receiver content delivered file path db).1
      ≡ waiting user_id db
        ++ (if receiver == user_id && not delivered
            then message_of_row (new_message env sender receiver content delivered file path db)
              ∷ []
            else [])
waiting-store_message env s r u c d f p db ok = rw (store_message-messages env s r c d f p db ok) (
    rw (where_rows-append (pending u) db.messages (new_message env s r c d f p db ∷ []))
      (rw map-append (ap (λ (t : List Message). waiting u db ++ t) (ground arith))))

where_rows-not :
    (p : MessageRow → Bool) (rs : List MessageRow)
    → where_rows p (where_rows (λ r. not (p r)) rs) ≡ []
where_rows-not p [] = refl
where_rows-not p (r ∷ rs) = elim (Bool-cases (p r)) [
  | inl h ↦ rw h (where_rows-not p rs)
  | inr h ↦ rw (h, h) (where_rows-not p rs)
]

where_rows-keep :
    (p q : MessageRow → Bool) (rs : List MessageRow)
    → ((r : MessageRow) → q r ≡ true → p r ≡ false)
    → where_rows q (where_rows (λ r. not (p r)) rs) ≡ where_rows q rs
where_rows-keep p q [] h = refl
where_rows-keep p q (r ∷ rs) h = elim (Bool-cases (q r)) [
  | inl k ↦ rw (h r k, k) (ap (◌∷◌ r) (where_rows-keep p q rs h))
  | inr k ↦ elim (Bool-cases (p r)) [
    | inl e ↦ rw (e, k) (where_rows-keep p q rs h)
    | inr e ↦ rw (e, k) (where_rows-keep p q rs h)
  ]
]

delete_offline-messages :
    (env : Env) (user_id : ℕ) (db : Db)
    → IsHealthy env
    → delete_offline_messages env user_id db
      ≡ (true, record db { messages = where_rows (λ r. not (pending user_id r)) db.messages })
unfolding delete_offline_messages
delete_offline-messages env u db ok =
    rw (ok.prepares_all (delete_offline u), ok.steps_all (delete_offline u) 0)

pub delete_offline-waiting :
    (env : Env) (user_id : ℕ) (db : Db)
    → IsHealthy env
    → waiting user_id (delete_offline_messages env user_id db).1 ≡ []
delete_offline-waiting env u db ok =
    rw (delete_offline-messages env u db ok)
      (ap (map message_of_row) (where_rows-not (pending u) db.messages))

-- While SQLite works, the deletion succeeds, leaves nothing waiting for its user, and keeps what
-- waits for the others and everything that was delivered.
pub delete_offline_messages_exact :
    (env : Env) (user_id other : ℕ) (db : Db)
    → IsHealthy env
    → user_id ≢ other
    → ((delete_offline_messages env user_id db).0 ≡ true)
      × (waiting user_id (delete_offline_messages env user_id db).1 ≡ [])
      × (waiting other (delete_offline_messages env user_id db).1 ≡ waiting other db)
      × (where_rows (λ r. r.is_delivered) (delete_offline_messages env user_id db).1.messages
          ≡ where_rows (λ r. r.is_delivered) db.messages)
delete_offline_messages_exact env u v db ok ne = rw (delete_offline-messages env u db ok) (
  refl,
  ap (map message_of_row) (where_rows-not (pending u) db.messages),
  ap (map message_of_row)
      (where_rows-keep (pending u) (pending v) db.messages (λ r h. ground arith)),
  where_rows-keep (pending u) (λ r. r.is_delivered) db.messages (λ r h. ground arith),
)

mem-where_rows :
    (p : MessageRow → Bool) (r : MessageRow) (rs : List MessageRow)
    → Mem r (where_rows p rs)
    → p r ≡ true
mem-where_rows p r [] m = absurd (not-mem-nil m)
mem-where_rows p r (s ∷ rs) m = elim (Bool-cases (p s)) [
  | inl h ↦
      Or.elim (Bool-set _ _) (mem-cons.0 (rw h at m)) (λ e. rw e h) (λ k. mem-where_rows p r rs k)
  | inr h ↦ mem-where_rows p r rs (rw h at m)
]

mem-take : (n : ℕ) (r : MessageRow) (rs : List MessageRow) → Mem r (take n rs) → Mem r rs
mem-take zero r rs m = absurd (not-mem-nil m)
mem-take (suc n) r [] m = m
mem-take (suc n) r (s ∷ rs) m =
    Or.elim Mem-prop (mem-cons.0 m) (λ e. rw e mem-cons_self)
      (λ k. mem-cons_of_mem s (mem-take n r rs k))

mem-limited : (n : ℕ) (r : MessageRow) (rs : List MessageRow) → Mem r (limited n rs) → Mem r rs
mem-limited n r rs m = elim (Bool-cases (ltb n (2 ^ 31))) [
  | inl h ↦ mem-take n r rs (rw h at m)
  | inr h ↦ rw h at m
]

mem-fetch :
    (q : Message → Bool) (steps : ℕ → Bool) (i : ℕ) (m : Message) (rs : List MessageRow)
    → ((r : MessageRow) → Mem r rs → q (message_of_row r) ≡ true)
    → Mem m (fetch steps i rs)
    → q m ≡ true
unfolding fetch
mem-fetch q steps i m [] h k = absurd (not-mem-nil k)
mem-fetch q steps i m (r ∷ rs) h k = elim (Bool-cases (steps i)) [
  | inl e ↦
      Or.elim (Bool-set _ _) (mem-cons.0 (rw e at k)) (λ x. rw x (h r mem-cons_self))
        (λ rest. mem-fetch q steps (i + 1) m rs (λ s t. h s (mem-cons_of_mem r t)) rest)
  | inr e ↦ absurd (not-mem-nil (rw e at k))
]

length-fetch :
    (steps : ℕ → Bool) (i : ℕ) (rs : List MessageRow) → length (fetch steps i rs) ≤ length rs
unfolding fetch
length-fetch steps i [] = omega arith
length-fetch steps i (r ∷ rs) = ground (arith, length-fetch steps (i + 1) rs)

length-take-le : (n : ℕ) (rs : List MessageRow) → length (take n rs) ≤ n
length-take-le zero rs = omega arith
length-take-le (suc n) [] = omega arith
length-take-le (suc n) (r ∷ rs) = omega (arith, length-take-le n rs)

length-limited-le : (n : ℕ) (rs : List MessageRow) → n < 2 ^ 31 → length (limited n rs) ≤ n
length-limited-le n rs lt = ground (arith, length-take-le n rs)

-- Who a message is from and to, as `between` tests it of a row.
abbrev pub is_between : ℕ → ℕ → Message → Bool
is_between i j m = m.sender_id == i && m.receiver_id == j || m.sender_id == j && m.receiver_id == i

-- Whatever statements SQLite fails, a history holds only messages between the two users, and no
-- more than its limit, if ORDER BY returns the rows that it is given and the limit is not
-- negative.
pub get_messages_bounded :
    (env : Env) (user_id other limit : ℕ) (db : Db)
    → Orders env
    → limit < 2 ^ 31
    → (length (get_messages env user_id other limit db) ≤ limit)
      × ((m : Message)
          → Mem m (get_messages env user_id other limit db)
          → is_between user_id other m ≡ true)
unfolding get_messages
get_messages_bounded env i j n db o lt =
    elim (Bool-cases (env.prepares (select_conversation i j n))) [
      | inl h ↦ rw h (
        omega (
          arith,
          length-fetch (env.steps (select_conversation i j n)) 0
              (limited n (env.order_desc (where_rows (between i j) db.messages))),
          length-limited-le n (env.order_desc (where_rows (between i j) db.messages)) lt,
        ),
        λ m k.
            mem-fetch (is_between i j) (env.steps (select_conversation i j n)) 0 m _
              (λ r t.
                mem-where_rows (between i j) r db.messages
                  ((Perm.mem_iff (o.order_desc-perm _)).0 (mem-limited n r _ t)))
              k,
      )
      | inr h ↦ rw h (omega arith, λ m k. absurd (not-mem-nil k))
    ]
