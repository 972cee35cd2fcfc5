-- ===== src/UserManager/Accounts.antt =====
-- registerUser and authenticateUser of server/user_manager.cpp.
use asynchronous_messenger.Base.{
  ℕ, String, true, false, ◌≡◌, refl, ◌≢◌, ap, ◌∙◌, none, some, arith, ◌==◌, string_eq, eq_refl,
  str_ne, if◌then◌else◌, c_str, c_str-to_string, Option-cases, inl, inr,
}
use asynchronous_messenger.Env.{Env, IsHealthy}
use asynchronous_messenger.Database.{
  Db, User, column_int, new_user, user_of_row, add_user, get_user,
}
use asynchronous_messenger.Database.Lookup.{get_user-add_user}
use asynchronous_messenger.Database.Users.{IsWellFormed, add_user-IsWellFormed}
use asynchronous_messenger.UserManager.{hash_password, register_user, authenticate_user}

module _ (hasher : String → ℕ) where
  register_user-added :
      (env : Env) (username email password : String) (db : Db)
      → (register_user hasher env username email password db).0 ≡ true
      → register_user hasher env username email password db
        ≡ add_user env username email (hash_password hasher password) db
  unfolding register_user
  register_user-added env u e p db h = elim (Option-cases (get_user env u db)) [
    | inl none_yet ↦ rw (none_yet, register_user) refl
    | inr (user, taken) ↦ absurd (ground (arith, taken))
  ]

  c_str-hash_password :
      (password : String) → c_str (hash_password hasher password) ≡ hash_password hasher password
  unfolding hash_password
  c_str-hash_password p = c_str-to_string _

  authenticate_user-found :
      (env : Env) (username password : String) (db : Db) (user : User)
      → get_user env username db ≡ some user
      → authenticate_user hasher env username password db
        ≡ (if hash_password hasher password == user.password_hash then some user.id else none)
  unfolding authenticate_user
  authenticate_user-found env u p db user h = rw (h, authenticate_user) refl

  authenticate_user-same :
      (env : Env) (username password : String) (db db' : Db)
      → get_user env username db ≡ get_user env username db'
      → authenticate_user hasher env username password db
        ≡ authenticate_user hasher env username password db'
  unfolding authenticate_user
  authenticate_user-same env u p db db' h = rw (h, authenticate_user) refl

  stored_hash :
      (env : Env) (username email password : String) (db : Db)
      → (user_of_row (new_user env username email (hash_password hasher password) db)).password_hash
        ≡ hash_password hasher password
  stored_hash env u e p db = ap c_str (c_str-hash_password p) ∙ c_str-hash_password p

  -- After a registration that succeeded, while SQLite works, the user logs in with the password
  -- and gets the id that the row was issued, a password of another hash is refused, and the
  -- answer to a login under any other name is as before.
  pub login_after_register :
      (env later : Env) (username email password other attempt : String) (db : Db)
      → IsHealthy later
      → (register_user hasher env username email password db).0 ≡ true
      → hash_password hasher attempt ≢ hash_password hasher password
      → c_str username ≢ c_str other
      → (authenticate_user hasher later username password
            (register_user hasher env username email password db).1
          ≡ some (column_int db.next_user_id))
        × (authenticate_user hasher later username attempt
              (register_user hasher env username email password db).1
            ≡ none)
        × (authenticate_user hasher later other attempt
              (register_user hasher env username email password db).1
            ≡ authenticate_user hasher later other attempt db)
  login_after_register env later u e p v q db ok h wrong apart =
      let added = register_user-added env u e p db h in
      let found =
        get_user-add_user env later u e (hash_password hasher p) v db ok (rw added at h) apart in
      rw added (
        authenticate_user-found later u p _ _ found.0
            ∙ ground (arith, stored_hash env u e p db, eq_refl (hash_password hasher p)),
        authenticate_user-found later u q _ _ found.0
            ∙ ground (
              arith,
              stored_hash env u e p db,
              str_ne (hash_password hasher q) (hash_password hasher p) wrong,
            ),
        authenticate_user-same later v q _ db found.1,
      )

  -- A name that is taken cannot be registered, with any password, and nothing is written.
  pub register_user_taken :
      (env : Env) (username email password : String) (db : Db) (user : User)
      → get_user env username db ≡ some user
      → register_user hasher env username email password db ≡ (false, db)
  unfolding register_user
  register_user_taken env u e p db user h = rw (h, register_user) refl

  -- Whatever SQLite does, a registration keeps the constraints of the table.
  pub register_user-IsWellFormed :
      (env : Env) (username email password : String) (db : Db)
      → IsWellFormed db
      → IsWellFormed (register_user hasher env username email password db).1
  unfolding register_user
  register_user-IsWellFormed env u e p db w = elim (Option-cases (get_user env u db)) [
    | inl free ↦
        rw (free, register_user) (add_user-IsWellFormed env u e (hash_password hasher p) db w)
    | inr (user, taken) ↦ rw (taken, register_user) w
  ]
