-- ===== src/Env.antt =====
-- The rows of the two tables, the SQL statements of server/database.cpp with the values bound to
-- them, and what the outside world decides while one event is handled: whether SQLite prepares and
-- steps a statement, in what order ORDER BY returns equal times, and the clock.
use asynchronous_messenger.Base.{ℕ, String, Bool, true, ◌≡◌, Option, List, Perm}

-- A row of `users`; the id is SQLite's 64-bit row id.
pub record UserRow : Type 0 where
  pub id : ℕ
  pub username : String
  pub email : String
  pub password_hash : String
  pub created_at : String

-- A row of `messages`; a NULL file_path is `none`.
pub record MessageRow : Type 0 where
  pub id : ℕ
  pub sender_id : ℕ
  pub receiver_id : ℕ
  pub content : String
  pub sent_at : String
  pub is_file : Bool
  pub file_path : Option String
  pub is_delivered : Bool

pub data Statement : Type 0 where
  create_users create_messages : Statement
  insert_user : String → String → String → Statement
  select_user : String → Statement
  select_user_by_id : ℕ → Statement
  insert_message : ℕ → ℕ → String → Statement
  select_conversation : ℕ → ℕ → ℕ → Statement
  select_offline delete_offline : ℕ → Statement

pub record Env : Type 0 where
  -- sqlite3_prepare_v2, or sqlite3_exec, returns SQLITE_OK
  pub prepares : Statement → Bool
  -- the i-th sqlite3_step of the statement does not fail
  pub steps : Statement → ℕ → Bool
  -- ORDER BY sent_at ASC and DESC
  pub order_asc : List MessageRow → List MessageRow
  pub order_desc : List MessageRow → List MessageRow
  -- CURRENT_TIMESTAMP
  pub current_timestamp : String
  -- std::time(nullptr)
  pub time : ℕ

-- SQLite works: no statement fails for a reason of its own.
pub record IsHealthy (env : Env) : Type 0 where
  pub prepares_all : (s : Statement) → env.prepares s ≡ true
  pub steps_all : (s : Statement) (i : ℕ) → env.steps s i ≡ true

-- ORDER BY returns the rows that it is given, each as often.
pub record Orders (env : Env) : Type 0 where
  pub order_asc-perm : (rows : List MessageRow) → Perm (env.order_asc rows) rows
  pub order_desc-perm : (rows : List MessageRow) → Perm (env.order_desc rows) rows
