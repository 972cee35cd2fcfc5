-- ===== src/Database/Users.antt =====
-- The constraints of the `users` table of server/database.cpp, and Database::addUser.
use asynchronous_messenger.Base.{
  ℕ, ◌+◌, ◌<◌, String, Bool, true, false, ◌≡◌, ◌≢◌, none, List, [], ◌∷◌, ◌++◌, arith, nat_eq,
  string_eq, eq_iff, first_row, c_str, inl, inr, Bool-cases, Option-cases,
}
use asynchronous_messenger.Env.{Env, UserRow, insert_user}
use asynchronous_messenger.Database.{Db, new_user, clashes, add_user}

abbrev pub Apart : UserRow → UserRow → Type 0
Apart r s = (r.username ≢ s.username) × (r.email ≢ s.email) × (r.id ≢ s.id)

abbrev pub ApartFrom : UserRow → List UserRow → Type 0
ApartFrom r [] = Unit {0}
ApartFrom r (s ∷ rs) = Apart s r × ApartFrom r rs

abbrev pub Distinct : List UserRow → Type 0
Distinct [] = Unit {0}
Distinct (r ∷ rs) = ApartFrom r rs × Distinct rs

abbrev pub IdsBelow : ℕ → List UserRow → Type 0
IdsBelow n [] = Unit {0}
IdsBelow n (r ∷ rs) = (r.id < n) × IdsBelow n rs

-- The constraints of the schema: names, addresses and ids are unique, and the ids were all issued.
pub record IsWellFormed (db : Db) : Type 0 where
  pub distinct : Distinct db.users
  pub issued : IdsBelow db.next_user_id db.users

IdsBelow-suc : (n : ℕ) (rs : List UserRow) → IdsBelow n rs → IdsBelow (n + 1) rs
IdsBelow-suc n [] h = tt
IdsBelow-suc n (r ∷ rs) h = (omega arith, IdsBelow-suc n rs h.1)

IdsBelow-append :
    (n : ℕ) (rs : List UserRow) (r : UserRow) → IdsBelow n rs → r.id < n → IdsBelow n (rs ++ r ∷ [])
IdsBelow-append n [] r h lt = (lt, tt)
IdsBelow-append n (s ∷ rs) r h lt = (h.0, IdsBelow-append n rs r h.1 lt)

ApartFrom-append :
    (s : UserRow) (rs : List UserRow) (r : UserRow)
    → ApartFrom s rs
    → Apart r s
    → ApartFrom s (rs ++ r ∷ [])
ApartFrom-append s [] r h a = (a, tt)
ApartFrom-append s (t ∷ rs) r h a = (h.0, ApartFrom-append s rs r h.1 a)

Distinct-append :
    (rs : List UserRow) (r : UserRow)
    → Distinct rs
    → IdsBelow r.id rs
    → first_row (clashes r.username r.email) rs ≡ none
    → Distinct (rs ++ r ∷ [])
Distinct-append [] r d b f = (tt, tt)
Distinct-append (s ∷ rs) r d b f = (
  ApartFrom-append s rs r d.0
      (ground (arith, eq_iff s.username r.username, eq_iff s.email r.email)),
  Distinct-append rs r d.1 b.1 (ground arith),
)

-- An insertion either changes nothing, or adds a row that clashes with none.
pub add_user_cases {ℓ} :
    (P : Bool × Db → Type ℓ) (env : Env) (username email password_hash : String) (db : Db)
    → P (false, db)
    → (first_row (clashes (c_str username) (c_str email)) db.users ≡ none
        → P (
          true,
          record db {
            users = db.users ++ new_user env username email password_hash db ∷ [];
            next_user_id = db.next_user_id + 1;
          },
        ))
    → P (add_user env username email password_hash db)
unfolding add_user
add_user_cases P env u e p db refused added =
    elim (Bool-cases (env.prepares (insert_user (c_str u) (c_str e) (c_str p)))) [
      | inr h ↦ rw h refused
      | inl h ↦ elim (Bool-cases (env.steps (insert_user (c_str u) (c_str e) (c_str p)) 0)) [
        | inr k ↦ rw (h, k) refused
        | inl k ↦ elim (Option-cases (first_row (clashes (c_str u) (c_str e)) db.users)) [
          | inl f ↦ rw (h, k, f) (added f)
          | inr (r, f) ↦ rw (h, k, f) refused
        ]
      ]
    ]

-- Whatever SQLite does, an insertion into the accounts table keeps its constraints: unique names,
-- addresses and ids, and ids below the next one.
pub add_user-IsWellFormed :
    (env : Env) (username email password_hash : String) (db : Db)
    → IsWellFormed db
    → IsWellFormed (add_user env username email password_hash db).1
add_user-IsWellFormed env u e p db h =
    add_user_cases (λ r. IsWellFormed r.1) env u e p db h
      λ f. record {
        distinct = Distinct-append db.users (new_user env u e p db) h.distinct h.issued f;
        issued =
            IdsBelow-append _ db.users (new_user env u e p db) (IdsBelow-suc _ db.users h.issued)
              (omega arith);
      }
