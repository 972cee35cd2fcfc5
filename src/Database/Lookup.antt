-- ===== src/Database/Lookup.antt =====
-- Looking users up: Database::getUser and getUserById of server/database.cpp, and addUser.
use asynchronous_messenger.Base.{
  ℕ, ◌^◌, ◌≤◌, ◌<◌, String, Bool, true, false, ◌≡◌, refl, ◌≢◌, ap, ◌∙◌, sym, Option, none, some,
  List, [], ◌∷◌, ◌++◌, arith, ◌==◌, nat_eq, string_eq, eq_refl, str_ne, first_row, first_row-append,
  c_str, inl, inr, Bool-cases, Option-cases, some_inj, subst,
}
use asynchronous_messenger.Env.{Env, UserRow, IsHealthy, insert_user}
use asynchronous_messenger.Database.{
  Db, User, new_user, column_int, equals_int, user_of_row, clashes, add_user, get_user,
  get_user_by_id, user_of, is_free,
}
use asynchronous_messenger.Database.Users.{
  ApartFrom, Distinct, IdsBelow, IsWellFormed, add_user_cases,
}

-- The row that a SELECT by name, or by id, is answered from.
abbrev pub named : String → Db → Option UserRow
named username db = first_row (λ r. r.username == c_str username) db.users

abbrev pub numbered : ℕ → Db → Option UserRow
numbered user_id db = first_row (λ r. equals_int r.id user_id) db.users

module _ {env : Env} (healthy : IsHealthy env) where
  pub get_user-healthy :
      (username : String) (db : Db) → get_user env username db ≡ user_of true (named username db)
  unfolding get_user
  get_user-healthy u db = rw (healthy.prepares_all _, healthy.steps_all _ 0)

  pub get_user_by_id-healthy :
      (user_id : ℕ) (db : Db) → get_user_by_id env user_id db ≡ user_of true (numbered user_id db)
  unfolding get_user_by_id
  get_user_by_id-healthy i db = rw (healthy.prepares_all _, healthy.steps_all _ 0)

  pub add_user-healthy :
      (username email password_hash : String) (db : Db)
      → (add_user env username email password_hash db).0
        ≡ is_free (first_row (clashes (c_str username) (c_str email)) db.users)
  unfolding add_user
  add_user-healthy u e p db = ground (
    arith,
    healthy.prepares_all (insert_user (c_str u) (c_str e) (c_str p)),
    healthy.steps_all (insert_user (c_str u) (c_str e) (c_str p)) 0,
  )

no_clash-named :
    (username email : String) (rs : List UserRow)
    → first_row (clashes username email) rs ≡ none
    → first_row (λ r. r.username == username) rs ≡ none
no_clash-named u e [] h = refl
no_clash-named u e (r ∷ rs) h = ground (arith, no_clash-named u e rs)

named_clash :
    (username email : String) (rs : List UserRow) (x : UserRow)
    → first_row (λ r. r.username == username) rs ≡ some x
    → is_free (first_row (clashes username email) rs) ≡ false
named_clash u e [] x h = ground arith
named_clash u e (r ∷ rs) x h = ground (arith, named_clash u e rs x)

pub named-add_user :
    (env : Env) (username email password_hash : String) (db : Db)
    → (add_user env username email password_hash db).0 ≡ true
    → named username (add_user env username email password_hash db).1
      ≡ some (new_user env username email password_hash db)
named-add_user env u e p db =
    add_user_cases (λ r. r.0 ≡ true → named u r.1 ≡ some (new_user env u e p db)) env u e p db
      (λ h. ground arith)
      (λ f h.
        first_row-append _ db.users _ (no_clash-named (c_str u) (c_str e) db.users f)
        ∙ ground (arith, eq_refl (c_str u)))

first_row-append_other :
    (q : UserRow → Bool) (rs : List UserRow) (r : UserRow)
    → q r ≡ false
    → first_row q (rs ++ r ∷ []) ≡ first_row q rs
first_row-append_other q [] r h = rw h
first_row-append_other q (s ∷ rs) r h = ground (arith, first_row-append_other q rs r h)

pub named-add_user_other :
    (env : Env) (username email password_hash other : String) (db : Db)
    → c_str username ≢ c_str other
    → named other (add_user env username email password_hash db).1 ≡ named other db
named-add_user_other env u e p v db ne =
    add_user_cases (λ r. named v r.1 ≡ named v db) env u e p db refl
      (λ f. first_row-append_other _ db.users _ (str_ne (c_str u) (c_str v) ne))

fresh_id :
    (n : ℕ) (rs : List UserRow) → IdsBelow n rs → first_row (λ r. equals_int r.id n) rs ≡ none
fresh_id n [] h = refl
fresh_id n (r ∷ rs) h = ground (arith, fresh_id n rs h.1)

found_below :
    (n : ℕ) (q : UserRow → Bool) (rs : List UserRow) (x : UserRow)
    → IdsBelow n rs
    → first_row q rs ≡ some x
    → x.id < n
found_below n q [] x b f = ground arith
found_below n q (r ∷ rs) x b f = ground (arith, found_below n q rs x b.1)

found_apart :
    (r : UserRow) (q : UserRow → Bool) (rs : List UserRow) (x : UserRow)
    → ApartFrom r rs
    → first_row q rs ≡ some x
    → x.id ≢ r.id
found_apart r q [] x a f = ground arith
found_apart r q (s ∷ rs) x a f = elim (Bool-cases (q s)) [
  | inl h ↦ subst (λ (y : UserRow). y.id ≢ r.id) (some_inj (rw h at f)) a.0.2
  | inr h ↦ found_apart r q rs x a.1 (rw h at f)
]

equals_int_self : (i : ℕ) → i < 2 ^ 31 → equals_int i (column_int i) ≡ true
equals_int_self i h = let e : column_int i ≡ i = omega arith in rw e (ground arith)

equals_int_ne : (i j : ℕ) → j < 2 ^ 31 → j ≢ i → equals_int i (column_int j) ≡ false
equals_int_ne i j h ne = let e : column_int j ≡ j = omega arith in rw e (ground arith)

-- A row that is found by name is found by its id, as long as the ids fit an `int`.
numbered-first_row :
    (q : UserRow → Bool) (rs : List UserRow) (x : UserRow) (n : ℕ)
    → Distinct rs
    → IdsBelow n rs
    → n ≤ 2 ^ 31
    → first_row q rs ≡ some x
    → first_row (λ r. equals_int r.id (column_int x.id)) rs ≡ some x
numbered-first_row q [] x n d b le f = ground arith
numbered-first_row q (r ∷ rs) x n d b le f = elim (Bool-cases (q r)) [
  | inl h ↦
      let e : r ≡ x = some_inj (rw h at f) in
      let same : equals_int x.id (column_int x.id) ≡ true =
        equals_int_self x.id (subst (λ (y : UserRow). y.id < 2 ^ 31) e (omega arith)) in
      rw (e, same)
  | inr h ↦
      let lt : x.id < n = found_below n q rs x b.1 (rw h at f) in
      rw (equals_int_ne r.id x.id (omega arith) (found_apart r q rs x d.0 (rw h at f)))
        (numbered-first_row q rs x n d.1 b.1 le (rw h at f))
]

pub get_user-found :
    (env : Env) (username : String) (db : Db) (user : User)
    → get_user env username db ≡ some user
    → (r : UserRow) × (named username db ≡ some r) × (user ≡ user_of_row r)
unfolding get_user
get_user-found env u db user h = elim (Option-cases (named u db)) [
  | inl e ↦ absurd (ground (arith, e))
  | inr (r, e) ↦ (r, e, ground (arith, e))
]

-- In a table that keeps its constraints and whose ids fit an int, the user that a name gives is
-- the user that its id gives, if SQLite works when the id is looked up.
pub get_user_by_id-get_user :
    (env later : Env) (username : String) (db : Db) (user : User)
    → IsWellFormed db
    → db.next_user_id ≤ 2 ^ 31
    → IsHealthy later
    → get_user env username db ≡ some user
    → get_user_by_id later user.id db ≡ some user
get_user_by_id-get_user env later u db user w le ok h =
    let (r, found, e) = get_user-found env u db user h in
    rw
      (e, get_user_by_id-healthy ok, numbered-first_row _ db.users r _ w.distinct w.issued le found)

-- After an insertion that succeeded, while SQLite works, the name is found with the values that
-- were bound, and every other name is answered as before.
pub get_user-add_user :
    (env later : Env) (username email password_hash other : String) (db : Db)
    → IsHealthy later
    → (add_user env username email password_hash db).0 ≡ true
    → c_str username ≢ c_str other
    → (get_user later username (add_user env username email password_hash db).1
        ≡ some (user_of_row (new_user env username email password_hash db)))
      × (get_user later other (add_user env username email password_hash db).1
          ≡ get_user later other db)
get_user-add_user env later u e p v db ok h ne = (
  get_user-healthy ok u _ ∙ ap (user_of true) (named-add_user env u e p db h),
  get_user-healthy ok v _
      ∙ ap (user_of true) (named-add_user_other env u e p v db ne)
      ∙ sym (get_user-healthy ok v db),
)

-- A name that is found cannot be inserted again, whatever SQLite does: the insertion fails, and
-- the database stays as it is.
pub add_user_taken :
    (env later : Env) (username email password_hash : String) (db : Db) (user : User)
    → get_user env username db ≡ some user
    → add_user later username email password_hash db ≡ (false, db)
add_user_taken env later u e p db user h =
    let (r, found, same) = get_user-found env u db user h in
    let clash = named_clash (c_str u) (c_str e) db.users r found in
    add_user_cases (λ out. out ≡ (false, db)) later u e p db refl
      (λ f. absurd (ground (arith, f, clash)))
