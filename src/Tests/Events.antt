-- ===== src/Tests/Events.antt =====
-- Events of the server (server/server.cpp, server/session.cpp).
use asynchronous_messenger.Base.{true, ◌≡◌, refl, some, [], ◌∷◌, arith, nat_eq}
use asynchronous_messenger.Base.Map.{find}
use asynchronous_messenger.Json.Sample.{Sample}
use asynchronous_messenger.Database.{initialize}
use asynchronous_messenger.UserManager.{get_session}
use asynchronous_messenger.Session.{World, close}
use asynchronous_messenger.JsonParser.{bind_session}
use asynchronous_messenger.Server.{accepted, received, step, start_server}
use asynchronous_messenger.Server.Faults.{relogin_leaks}
use asynchronous_messenger.Server.Invariant.{Inv}
use asynchronous_messenger.Server.Privacy.{Unregistered, received_private}
use asynchronous_messenger.Server.Reach.{Reach, Reach-Inv, started, next}
use asynchronous_messenger.Tests.Data.{
  calm, hasher, lib, file, fresh, bob_online, two_users-IsWellFormed,
}

-- The world behind the start of the server.
abbrev initial : World Sample
initial = record fresh { next_session = 0 }

-- A connection was accepted, and sent the text `{`.
abbrev later : World Sample
later = step lib hasher calm (received 0 (123 ∷ 10 ∷ [])) (step lib hasher calm accepted initial)

initial-Reach : Reach lib hasher file initial
unfolding start_server initialize
initial-Reach = started calm refl

later-Reach : Reach lib hasher file later
unfolding step
later-Reach =
    next calm (received 0 (123 ∷ 10 ∷ [])) (next calm accepted initial-Reach tt) (omega arith)

Reach-Inv_example : Inv later
Reach-Inv_example =
    Reach-Inv lib hasher file later (two_users-IsWellFormed.distinct, two_users-IsWellFormed.issued)
      later-Reach

nobody-Unregistered : Unregistered 1 fresh
unfolding find
nobody-Unregistered i h = ground (arith, h)

received_private_example :
    ((step lib hasher calm (received 0 (123 ∷ 10 ∷ [])) fresh).sessions 1 ≡ fresh.sessions 1)
    × Unregistered 1 (step lib hasher calm (received 0 (123 ∷ 10 ∷ [])) fresh)
received_private_example =
    received_private lib hasher calm 0 1 (123 ∷ 10 ∷ []) fresh (λ e. omega (arith, e))
      nobody-Unregistered

-- bob has logged in from connections 0 and 1.
abbrev twice : World Sample
twice = record bob_online {
  manager = record { active_sessions = (2, 1) ∷ []; user_id_to_username = (2, "bob") ∷ [] };
  sessions = λ i. bob_online.sessions 0;
}

relogin_leaks_example :
    let w' = close 0 (bind_session 0 1 "ann" bob_online) in
    (get_session 2 w'.manager ≡ some 0) × ((w'.sessions 0).closing ≡ true)
unfolding get_session find
relogin_leaks_example =
    relogin_leaks lib calm 0 2 1 "ann" bob_online (λ e. omega (arith, e)) refl refl
