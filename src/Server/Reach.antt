-- ===== src/Server/Reach.antt =====
-- The states of the server, over the events of server/server.cpp and server/session.cpp, from a
-- file whose tables keep their constraints.
use asynchronous_messenger.Base.{
  ℕ, String, ◌≡◌, refl, Option, none, some, List, arith, Option-cases, some_inj, subst, inl, inr,
}
use asynchronous_messenger.Base.Map.{find}
use asynchronous_messenger.Json.{JsonLib}
use asynchronous_messenger.Env.{Env, UserRow}
use asynchronous_messenger.Database.{Db, DbFile, initialize, created}
use asynchronous_messenger.Database.Users.{Distinct, IdsBelow, IsWellFormed}
use asynchronous_messenger.Session.{World}
use asynchronous_messenger.Server.{Event, step, start_server}
use asynchronous_messenger.Server.Invariant.{Inv, Possible, step-Inv}

abbrev TableOk : Option (List UserRow × ℕ) → Type 0
TableOk none = Unit {0}
TableOk (some (rows, next)) = Distinct rows × IdsBelow next rows

abbrev pub FileOk : DbFile → Type 0
FileOk file = TableOk file.users_table

pub data Reach {Json : Type 0} (lib : JsonLib Json) (hasher : String → ℕ) (file : DbFile)
    : World Json → Type 0 where
  started : {w : World Json} (env : Env) → start_server env file ≡ some w → Reach lib hasher file w
  next :
      {w : World Json} (env : Env) (e : Event)
      → Reach lib hasher file w
      → Possible w e
      → Reach lib hasher file (step lib hasher env e w)

created-ok :
    (t : Option (List UserRow × ℕ))
    → TableOk t
    → Distinct (created t).0 × IdsBelow (created t).1 (created t).0
created-ok none h = (tt, tt)
created-ok (some (rows, n)) h = h

initialize-IsWellFormed :
    (env : Env) (file : DbFile) (db : Db)
    → FileOk file
    → initialize env file ≡ some db
    → IsWellFormed db
unfolding initialize
initialize-IsWellFormed env file db ok h =
    let table = created-ok file.users_table ok in ground (arith, table)

start_server-Inv :
    {Json : Type 0} (env : Env) (file : DbFile) (w : World Json)
    → FileOk file
    → start_server env file ≡ some w
    → Inv w
unfolding start_server find
start_server-Inv env file w ok h = elim (Option-cases (initialize env file)) [
  | inl e ↦ absurd (ground (arith, e))
  | inr (db, e) ↦
      let made = some_inj (rw (e, start_server) at h) in
      subst Inv made (record {
        users = initialize-IsWellFormed env file db ok e;
        aligned = record { at_id = λ i. refl };
        live = λ i s x. ground arith;
      })
]

-- In every state that the server can come to from a file whose accounts table keeps its
-- constraints, whatever clients send and SQLite does: account names, addresses and ids are unique
-- and the ids were issued, the two maps of the UserManager hold the same users, and each
-- logged-in user's session was accepted and is authenticated.
pub Reach-Inv :
    {Json : Type 0} (lib : JsonLib Json) (hasher : String → ℕ) (file : DbFile) (w : World Json)
    → FileOk file
    → Reach lib hasher file w
    → Inv w
Reach-Inv lib hasher file w ok (started env h) = start_server-Inv env file w ok h
Reach-Inv lib hasher file w ok (next {w = v} env e r p) =
    step-Inv lib hasher env e v p (Reach-Inv lib hasher file v ok r)
