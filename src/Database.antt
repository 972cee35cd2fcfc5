-- ===== src/Database.antt =====
-- server/database.cpp and server/include/database.h. The tables are lists of rows in the order of
-- their insertion; each method prepares one SQL statement, binds its values and steps it. Foreign
-- keys are not enforced, as SQLite leaves them by default.
pub mod Users
pub mod Lookup
pub mod Messages
use asynchronous_messenger.Base.{
  ℕ, ◌+◌, ◌%◌, ◌^◌, String, Bool, true, false, not, ◌&&◌, ◌||◌, Option, none, some, List, [], ◌∷◌,
  ◌++◌, map, ◌==◌, nat_eq, string_eq, ltb, if◌then◌else◌, take, where_rows, first_row, c_str,
}
use asynchronous_messenger.Env.{
  Env, UserRow, MessageRow, Statement, create_users, create_messages, insert_user, select_user,
  select_user_by_id, insert_message, select_conversation, select_offline, delete_offline,
}

-- struct User; `id` is an `int`, read as a bit pattern.
pub record User : Type 0 where
  pub id : ℕ
  pub username : String
  pub email : String
  pub password_hash : String
  pub created_at : String

-- struct Message
pub record Message : Type 0 where
  pub id : ℕ
  pub sender_id : ℕ
  pub receiver_id : ℕ
  pub content : String
  pub sent_at : String
  pub is_file : Bool
  pub file_path : String
  pub is_delivered : Bool

pub record Db : Type 0 where
  pub users : List UserRow
  pub next_user_id : ℕ
  pub messages : List MessageRow
  pub next_message_id : ℕ

-- The file that is opened: a table may be missing from it. The number is AUTOINCREMENT's next id.
pub record DbFile : Type 0 where
  pub users_table : Option (List UserRow × ℕ)
  pub messages_table : Option (List MessageRow × ℕ)

-- CREATE TABLE IF NOT EXISTS
abbrev pub created : {A : Type 0} → Option (List A × ℕ) → List A × ℕ
created none = ([], 1)
created (some t) = t

-- Database::initialize; `none` is the std::runtime_error
unfoldable pub initialize : Env → DbFile → Option Db
initialize env file =
    if env.prepares create_users
    then (if env.prepares create_messages
        then some (record {
          users = (created file.users_table).0;
          next_user_id = (created file.users_table).1;
          messages = (created file.messages_table).0;
          next_message_id = (created file.messages_table).1;
        })
        else none)
    else none

-- sqlite3_column_int: the low 32 bits
abbrev pub column_int : ℕ → ℕ
column_int n = n % 2 ^ 32

-- A row id against an `int` parameter: a negative one equals no row id.
abbrev pub equals_int : ℕ → ℕ → Bool
equals_int rowid pattern = ltb pattern (2 ^ 31) && rowid == pattern

abbrev pub user_of_row : UserRow → User
user_of_row r = record {
  id = column_int r.id;
  username = c_str r.username;
  email = c_str r.email;
  password_hash = c_str r.password_hash;
  created_at = c_str r.created_at;
}

abbrev or_blank : Option String → String
or_blank none = ""
or_blank (some path) = c_str path

abbrev pub message_of_row : MessageRow → Message
message_of_row r = record {
  id = column_int r.id;
  sender_id = r.sender_id;
  receiver_id = r.receiver_id;
  content = c_str r.content;
  sent_at = c_str r.sent_at;
  is_file = r.is_file;
  file_path = or_blank r.file_path;
  is_delivered = r.is_delivered;
}

-- The UNIQUE constraints of `users`.
abbrev pub clashes : String → String → UserRow → Bool
clashes username email r = r.username == username || r.email == email

abbrev pub is_free : Option UserRow → Bool
is_free none = true
is_free (some r) = false

abbrev pub new_user : Env → String → String → String → Db → UserRow
new_user env username email password_hash db = record {
  id = db.next_user_id;
  username = c_str username;
  email = c_str email;
  password_hash = c_str password_hash;
  created_at = env.current_timestamp;
}

unfoldable pub add_user : Env → String → String → String → Db → Bool × Db
add_user env username email password_hash db =
    let st = insert_user (c_str username) (c_str email) (c_str password_hash) in
    if env.prepares st
    then (if env.steps st 0 && is_free (first_row (clashes (c_str username) (c_str email)) db.users)
        then (
          true,
          record db {
            users = db.users ++ new_user env username email password_hash db ∷ [];
            next_user_id = db.next_user_id + 1;
          },
        )
        else (false, db))
    else (false, db)

-- One step of a SELECT: a row, or nothing.
abbrev pub user_of : Bool → Option UserRow → Option User
user_of false r = none
user_of true none = none
user_of true (some r) = some (user_of_row r)

unfoldable pub get_user : Env → String → Db → Option User
get_user env username db =
    let st = select_user (c_str username) in
    if env.prepares st
    then user_of (env.steps st 0) (first_row (λ r. r.username == c_str username) db.users)
    else none

unfoldable pub get_user_by_id : Env → ℕ → Db → Option User
get_user_by_id env user_id db =
    let st = select_user_by_id user_id in
    if env.prepares st
    then user_of (env.steps st 0) (first_row (λ r. equals_int r.id user_id) db.users)
    else none

abbrev pub new_message : Env → ℕ → ℕ → String → Bool → Bool → String → Db → MessageRow
new_message env sender_id receiver_id content is_delivered is_file file_path db = record {
  id = db.next_message_id;
  sender_id = sender_id;
  receiver_id = receiver_id;
  content = c_str content;
  sent_at = env.current_timestamp;
  is_file = is_file;
  file_path = some (c_str file_path);
  is_delivered = is_delivered;
}

unfoldable pub store_message : Env → ℕ → ℕ → String → Bool → Bool → String → Db → Bool × Db
store_message env sender_id receiver_id content is_delivered is_file file_path db =
    let st = insert_message sender_id receiver_id (c_str content) in
    let row = new_message env sender_id receiver_id content is_delivered is_file file_path db in
    if env.prepares st
    then (if env.steps st 0
        then (
          true,
          record db {
            messages = db.messages ++ row ∷ [];
            next_message_id = db.next_message_id + 1;
          },
        )
        else (false, db))
    else (false, db)

-- while (sqlite3_step(stmt) == SQLITE_ROW): a step that fails ends the loop
unfoldable pub fetch : (ℕ → Bool) → ℕ → List MessageRow → List Message
fetch steps i [] = []
fetch steps i (r ∷ rs) =
    let rest = fetch steps (i + 1) rs in if steps i then message_of_row r ∷ rest else []

abbrev pub between : ℕ → ℕ → MessageRow → Bool
between user_id other_user_id r =
    r.sender_id == user_id && r.receiver_id == other_user_id
    || r.sender_id == other_user_id && r.receiver_id == user_id

-- LIMIT: a negative one is no limit
abbrev pub limited : ℕ → List MessageRow → List MessageRow
limited limit rows = if ltb limit (2 ^ 31) then take limit rows else rows

unfoldable pub get_messages : Env → ℕ → ℕ → ℕ → Db → List Message
unfolding fetch
get_messages env user_id other_user_id limit db =
    let st = select_conversation user_id other_user_id limit in
    if env.prepares st
    then fetch (env.steps st) 0
        (limited limit (env.order_desc (where_rows (between user_id other_user_id) db.messages)))
    else []

abbrev pub pending : ℕ → MessageRow → Bool
pending user_id r = r.receiver_id == user_id && not r.is_delivered

unfoldable pub get_offline_messages : Env → ℕ → Db → List Message
unfolding fetch
get_offline_messages env user_id db =
    let st = select_offline user_id in
    if env.prepares st
    then fetch (env.steps st) 0 (env.order_asc (where_rows (pending user_id) db.messages))
    else []

unfoldable pub delete_offline_messages : Env → ℕ → Db → Bool × Db
delete_offline_messages env user_id db =
    let st = delete_offline user_id in
    if env.prepares st
    then (if env.steps st 0
        then (true, record db { messages = where_rows (λ r. not (pending user_id r)) db.messages })
        else (false, db))
    else (false, db)
