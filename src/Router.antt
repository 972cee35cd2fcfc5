-- ===== src/Router.antt =====
-- server/router.cpp and server/include/router.h. `routeFileTransfer` only logs and is left out.
pub mod Delivery
use asynchronous_messenger.Base.{
  ℕ, String, Bool, true, false, Option, none, some, List, [], ◌∷◌, ◌==◌, string_eq, if◌then◌else◌,
  is_empty, ◌>>=◌, try◌catch◌,
}
use asynchronous_messenger.Json.{JsonLib, text, flag, number}
use asynchronous_messenger.Env.{Env}
use asynchronous_messenger.Database.{
  Db, User, Message, get_user, get_user_by_id, store_message, get_offline_messages,
  delete_offline_messages,
}
use asynchronous_messenger.UserManager.{get_session, get_session_by_username}
use asynchronous_messenger.Session.{World, send}

module _ {Json : Type 0} (lib : JsonLib Json) (env : Env) where
  -- if (sender_user != nullptr) delivery_message["from"] = sender_user->username
  abbrev pub put_sender : Option User → Json → Json
  put_sender none message = message
  put_sender (some user) message = lib.put message "from" (text user.username)

  -- The copy of the message that an online receiver gets.
  unfoldable pub delivery : Json → ℕ → Db → Json
  delivery message sender_id db =
      let stamped = lib.put message "timestamp" (number env.time) in
      put_sender (get_user_by_id env sender_id db) (lib.put stamped "delivered" (flag true))

  unfoldable pub deliver_to : Json → ℕ → ℕ → String → World Json → World Json
  deliver_to message sender_id receiver_id content w = elim (get_session receiver_id w.manager) [
    | some receiver_session ↦
        let r = store_message env sender_id receiver_id content true false "" w.db in
        let w' = record w { db = r.1 } in
        if r.0 then send lib receiver_session (delivery message sender_id w'.db) w' else w'
    | none ↦ record w {
      db = (store_message env sender_id receiver_id content false false "" w.db).1;
    }
  ]

  unfoldable pub deliver_message : Json → ℕ → String → World Json → World Json
  deliver_message message sender_id receiver_username w =
      elim (get_user env receiver_username w.db) [
        | none ↦ w
        | some receiver ↦
            try (do
              content ← lib.as_string message "content"
              some (deliver_to message sender_id receiver.id content w))
            catch w
      ]

  unfoldable pub route_message : Json → ℕ → World Json → World Json
  route_message message sender_user_id w =
      try (do
        message_type ← lib.as_string message "type"
        (if message_type == "message"
            then (do
              receiver_username ← lib.as_string message "to"
              some (deliver_message message sender_user_id receiver_username w))
            else some w))
      catch w

  unfoldable pub typing_message : String → Bool → Json
  typing_message from_username is_typing =
      let named = lib.put (lib.put lib.null "type" (text "typing")) "from" (text from_username) in
      lib.put (lib.put named "is_typing" (flag is_typing)) "timestamp" (number env.time)

  unfoldable pub send_typing_status : String → String → Bool → World Json → World Json
  send_typing_status from_username to_username is_typing w =
      elim (get_session_by_username to_username w.manager) [
        | some receiver_session ↦
            send lib receiver_session (typing_message from_username is_typing) w
        | none ↦ w
      ]

  abbrev pub name_or_unknown : Option User → String
  name_or_unknown none = "unknown"
  name_or_unknown (some user) = user.username

  unfoldable pub stored_message : Db → Message → Json
  stored_message db msg =
      let from = name_or_unknown (get_user_by_id env msg.sender_id db) in
      let named = lib.put (lib.put lib.null "type" (text "message")) "from" (text from) in
      let filled =
        lib.put (lib.put named "content" (text msg.content)) "timestamp" (number env.time) in
      let dated =
        lib.put (lib.put filled "original_time" (text msg.sent_at)) "stored" (flag true) in
      if msg.is_file
      then lib.put (lib.put dated "is_file" (flag true)) "file_path" (text msg.file_path)
      else dated

  -- for (const auto& msg : offline_messages)
  unfoldable pub send_all_stored : List Message → ℕ → World Json → World Json
  send_all_stored [] sid w = w
  send_all_stored (msg ∷ rest) sid w =
      send_all_stored rest sid (send lib sid (stored_message w.db msg) w)

  unfoldable pub send_stored_messages : ℕ → ℕ → World Json → World Json
  send_stored_messages user_id sid w =
      let offline_messages = get_offline_messages env user_id w.db in
      let w' = send_all_stored offline_messages sid w in
      if is_empty offline_messages
      then w
      else record w' { db = (delete_offline_messages env user_id w'.db).1 }
