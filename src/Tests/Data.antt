-- ===== src/Tests/Data.antt =====
-- A server with two accounts, `ann` and `bob`, one stored message from `bob` to `ann`, and two open
-- connections; SQLite works, and rows come in the order of the table.
use asynchronous_messenger.Base.{
  ℕ, String, true, false, ◌≡◌, refl, Option, none, some, List, [], ◌∷◌, ◌==◌, nat_eq, string_eq,
  if◌then◌else◌, is_empty, arith, ◌≢◌, ap, eq_refl, ◌&&◌,
}
use mathlib.Core.List.Perm
use asynchronous_messenger.Json.{JsonLib, text, Serializes}
use asynchronous_messenger.Json.Sample.{Sample, object, sample_lib}
use asynchronous_messenger.Env.{Env, UserRow, MessageRow, IsHealthy, Orders}
use asynchronous_messenger.Database.{Db, DbFile}
use asynchronous_messenger.Database.Users.{IsWellFormed}
use asynchronous_messenger.UserManager.{no_sessions}
use asynchronous_messenger.Session.{Session, World, new_session}

abbrev pub calm : Env
calm = record {
  prepares = λ s. true;
  steps = λ s i. true;
  order_asc = λ rows. rows;
  order_desc = λ rows. rows;
  current_timestamp = "2024-05-01 10:00:00";
  time = 1714557600;
}

pub calm-IsHealthy : IsHealthy calm
calm-IsHealthy = record { prepares_all = λ s. refl; steps_all = λ s i. refl }

pub calm-Orders : Orders calm
calm-Orders = record { order_asc-perm = λ rows. Perm.refl _; order_desc-perm = λ rows. Perm.refl _ }

-- A std::hash that tells one salted password from the others.
abbrev pub hasher : String → ℕ
hasher s = if s == "onesalt_key_2024" then 11 else 12

abbrev pub ann_row : UserRow
ann_row = record {
  id = 1;
  username = "ann";
  email = "ann@x";
  password_hash = "11";
  created_at = "2024-05-01 10:00:00";
}

abbrev pub bob_row : UserRow
bob_row = record {
  id = 2;
  username = "bob";
  email = "bob@x";
  password_hash = "12";
  created_at = "2024-05-01 10:00:00";
}

abbrev pub stored_row : MessageRow
stored_row = record {
  id = 1;
  sender_id = 2;
  receiver_id = 1;
  content = "hi";
  sent_at = "2024-05-01 10:00:00";
  is_file = false;
  file_path = some "";
  is_delivered = false;
}

abbrev pub two_users : Db
two_users = record {
  users = ann_row ∷ bob_row ∷ [];
  next_user_id = 3;
  messages = stored_row ∷ [];
  next_message_id = 2;
}

abbrev pub file : DbFile
file = record {
  users_table = some (ann_row ∷ bob_row ∷ [], 3);
  messages_table = some (stored_row ∷ [], 2);
}

abbrev pub bob_to_ann : Sample
bob_to_ann = object (("type", text "message") ∷ ("to", text "ann") ∷ ("content", text "hello") ∷ [])

-- The text `{` is the message of bob to ann, and `[` is no JSON.
abbrev pub table : List ℕ → Option Sample
table [] = none
table (c ∷ s) = if c == 123 && is_empty s then some bob_to_ann else none

abbrev pub lib : JsonLib Sample
lib = sample_lib table

pub lib-Serializes : Serializes lib
lib-Serializes = record { dumps = λ j. (91 ∷ 93 ∷ [], refl) }

-- A session that is logged in.
abbrev pub logged_in : ℕ → String → Session Sample
logged_in user_id username = record new_session {
  authenticated = true;
  user_id = user_id;
  username = username;
}

-- Connections 0 and 1, from which nobody has logged in.
abbrev pub fresh : World Sample
fresh = record {
  db = two_users;
  manager = no_sessions;
  sessions = λ i. new_session;
  next_session = 2;
}

-- bob is logged in from connection 0, and ann is not.
abbrev pub bob_online : World Sample
bob_online = record {
  db = two_users;
  manager = record { active_sessions = (2, 0) ∷ []; user_id_to_username = (2, "bob") ∷ [] };
  sessions = λ i. if i == 0 then logged_in 2 "bob" else new_session;
  next_session = 2;
}

-- ann is logged in too, from connection 1.
abbrev pub both_online : World Sample
both_online = record {
  db = two_users;
  manager = record {
    active_sessions = (2, 0) ∷ (1, 1) ∷ [];
    user_id_to_username = (2, "bob") ∷ (1, "ann") ∷ [];
  };
  sessions = λ i. if i == 0 then logged_in 2 "bob" else logged_in 1 "ann";
  next_session = 2;
}

pub texts_differ : (s t : String) → (s == t) ≡ false → s ≢ t
texts_differ s t h e = absurd (ground (arith, h, ap (λ (x : String). x == t) e, eq_refl t))

pub two_users-IsWellFormed : IsWellFormed two_users
two_users-IsWellFormed = record {
  distinct = (
    ((texts_differ "bob" "ann" refl, texts_differ "bob@x" "ann@x" refl, λ e. omega (arith, e)), tt),
    (tt, tt),
  );
  issued = (omega arith, (omega arith, tt));
}
