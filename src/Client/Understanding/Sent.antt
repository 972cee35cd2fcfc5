-- ===== src/Client/Understanding/Sent.antt =====
-- The messages of server/router.cpp and all that the server sends, in the handlers of
-- client/message_receiver.cpp.
use asynchronous_messenger.Base.{
  ℕ, String, true, ◌≡◌, refl, ◌∙◌, ◌⊎◌, inl, inr, some, List, [], ◌∷◌, string_eq, Option-cases,
  if_cases, if_true, Each, Each-map,
}
use asynchronous_messenger.Json.{JsonLib, JsonLaws, Value, text, flag, number, string_of, time_of}
use asynchronous_messenger.Json.Objects.{build, assigned, build-contains, build-string, build-time}
use asynchronous_messenger.Env.{Env}
use asynchronous_messenger.Database.{Db, DbFile, Message, get_user_by_id}
use asynchronous_messenger.Session.{World}
use asynchronous_messenger.Router.{delivery, stored_message, name_or_unknown, put_sender}
use asynchronous_messenger.Server.Composed.{Composed, answered, relayed, told, kept}
use asynchronous_messenger.Server.Reach.{Reach}
use asynchronous_messenger.Server.Sending.{Reach-SendsComposed}
use asynchronous_messenger.Client.{Client, Net}
use asynchronous_messenger.Client.Understanding.{
  Handled, Unfit, chat-Handled, response-Handled, typing-Handled,
}

module _ {Json : Type 0} (lib : JsonLib Json) (laws : JsonLaws lib) (net : Net) where
  -- A chat message as it was put together, by what its members come to.
  built-Handled :
      (j : Json) (fs : List (String × Value)) (content : String) (n : ℕ) (c : Client Json)
      → lib.is_settable j ≡ true
      → assigned (λ v. true) "type" fs (lib.contains j "type") ≡ true
      → assigned string_of "type" fs (lib.as_string j "type") ≡ some "message"
      → assigned string_of "content" fs (lib.as_string j "content") ≡ some content
      → assigned (λ v. true) "timestamp" fs (lib.contains j "timestamp") ≡ true
      → assigned time_of "timestamp" fs (lib.as_time j "timestamp") ≡ some n
      → Handled lib net c (build lib j fs) ⊎ Unfit lib net (build lib j fs)
  built-Handled j fs content n c ok has_type typed filled has_time time =
      chat-Handled lib net (build lib j fs) content n c
        (build-contains lib laws j fs "type" ok ∙ has_type)
        (build-string lib laws j fs "type" ok ∙ typed)
        (build-string lib laws j fs "content" ok ∙ filled)
        (if_true (lib.contains (build lib j fs) "timestamp") _ _
            (build-contains lib laws j fs "timestamp" ok ∙ has_time)
          ∙ build-time lib laws j fs "timestamp" ok
          ∙ time)

  stored-Handled :
      (env : Env) (db : Db) (msg : Message) (c : Client Json)
      → let m = stored_message lib env db msg in Handled lib net c m ⊎ Unfit lib net m
  unfolding stored_message
  stored-Handled env db msg c =
      let ok = laws.null_settable in
      let fs : List (String × Value) =
        ("stored", flag true)
        ∷ ("original_time", text msg.sent_at)
        ∷ ("timestamp", number env.time)
        ∷ ("content", text msg.content)
        ∷ ("from", text (name_or_unknown lib env (get_user_by_id env msg.sender_id db)))
        ∷ ("type", text "message")
        ∷ [] in
      let gs : List (String × Value) =
        ("file_path", text msg.file_path) ∷ ("is_file", flag true) ∷ fs in
      if_cases (λ (j : Json). Handled lib net c j ⊎ Unfit lib net j) msg.is_file _ _
        (λ _. built-Handled lib.null gs msg.content env.time c ok refl refl refl refl refl)
        (λ _. built-Handled lib.null fs msg.content env.time c ok refl refl refl refl refl)

  delivery-Handled :
      (env : Env) (m : Json) (sender_id : ℕ) (db : Db) (content : String) (c : Client Json)
      → lib.contains m "type" ≡ true
      → lib.as_string m "type" ≡ some "message"
      → lib.as_string m "content" ≡ some content
      → let d = delivery lib env m sender_id db in Handled lib net c d ⊎ Unfit lib net d
  unfolding delivery
  delivery-Handled env m i db content c has_type typed filled =
      let ok = laws.contains_settable m "type" has_type in
      let fs : List (String × Value) =
        ("delivered", flag true) ∷ ("timestamp", number env.time) ∷ [] in
      elim (Option-cases (get_user_by_id env i db)) [
        | inl e ↦
            rw (e, put_sender)
              (built-Handled m fs content env.time c ok has_type typed filled refl refl)
        | inr (user, e) ↦
            rw (e, put_sender)
              (built-Handled m (("from", text user.username) ∷ fs) content env.time c ok has_type
                typed filled refl refl)
      ]

  Composed-Handled :
      (c : Client Json) (m : Json) → Composed lib m → Handled lib net c m ⊎ Unfit lib net m
  Composed-Handled c m (answered env ok said s) =
      inl (response-Handled lib laws net env ok said c s)
  Composed-Handled c m (relayed env n i db content has_type typed filled) =
      delivery-Handled env n i db content c has_type typed filled
  Composed-Handled c m (told env from b) = inl (typing-Handled lib laws net env from b c)
  Composed-Handled c m (kept env db n) = stored-Handled env db n c

  -- Each message that a session has sent in any state that the server can come to, whatever
  -- clients send and SQLite does, is of a type that the client knows, one of the four kinds of
  -- answers, "message" or "typing", and the handler of that type takes it without an exception,
  -- in any state of the client, unless it is of type "message" and its member "from" is no text
  -- or its member "stored" is there and is no Boolean.
  pub sent_understood :
      (hasher : String → ℕ) (file : DbFile) (w : World Json) (c : Client Json) (k : ℕ)
      → Reach lib hasher file w
      → Each (λ m. Handled lib net c m ⊎ Unfit lib net m) (w.sessions k).sent
  sent_understood hasher file w c k r =
      Each-map (Composed lib) (λ m. Handled lib net c m ⊎ Unfit lib net m) (w.sessions k).sent
        (Composed-Handled c) (Reach-SendsComposed lib hasher file w r k)
