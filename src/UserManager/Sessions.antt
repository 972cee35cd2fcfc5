-- ===== src/UserManager/Sessions.antt =====
-- The two maps of sessions of server/user_manager.cpp.
use asynchronous_messenger.Base.{
  ℕ, String, Bool, true, false, ◌≡◌, refl, ◌≢◌, ◌∙◌, Option, none, some, List, [], ◌∷◌, arith, ◌==◌,
  nat_eq, string_eq, eq_refl, if◌then◌else◌, Option-cases, inl, inr,
}
use asynchronous_messenger.Base.Map.{find, insert, find-insert, find-erase}
use asynchronous_messenger.UserManager.{
  UserManager, remove_session, add_session, get_session, is_session_active, is_found, find_username,
  get_session_by_username,
}

abbrev pub is_named : Option String → Bool
is_named none = false
is_named (some name) = true

-- A user has a session exactly when the user has a name.
pub record IsAligned (m : UserManager) : Type 0 where
  pub at_id :
      (i : ℕ) → is_found (find i m.active_sessions) ≡ is_named (find i m.user_id_to_username)

pub active-remove_session :
    (user_id i : ℕ) (m : UserManager)
    → find i (remove_session user_id m).active_sessions
      ≡ (if user_id == i then none else find i m.active_sessions)
unfolding remove_session
active-remove_session u i m = elim (Option-cases (find u m.active_sessions)) [
  | inl e ↦ rw (e, remove_session) (ground (arith, e))
  | inr (s, e) ↦ rw (e, remove_session) (find-erase u i m.active_sessions)
]

pub active-add_session :
    (user_id i : ℕ) (username : String) (session : ℕ) (m : UserManager)
    → find i (add_session user_id username session m).active_sessions
      ≡ (if user_id == i then some session else find i m.active_sessions)
unfolding add_session
active-add_session u i name s m =
    find-insert u i s (remove_session u m).active_sessions
    ∙ ground (arith, active-remove_session u i m)

pub remove_session-IsAligned :
    (user_id : ℕ) (m : UserManager) → IsAligned m → IsAligned (remove_session user_id m)
unfolding remove_session
remove_session-IsAligned u m a = elim (Option-cases (find u m.active_sessions)) [
  | inl e ↦ rw (e, remove_session) a
  | inr (s, e) ↦
      rw (e, remove_session)
        (record {
          at_id = λ i. ground (
            arith,
            a.at_id i,
            find-erase u i m.active_sessions,
            find-erase u i m.user_id_to_username,
          );
        })
]

-- Logging in and out keeps the maps aligned.
pub add_session-IsAligned :
    (user_id : ℕ) (username : String) (session : ℕ) (m : UserManager)
    → IsAligned m
    → IsAligned (add_session user_id username session m)
unfolding add_session
add_session-IsAligned u name s m a = record {
  at_id = λ i. ground (
    arith,
    (remove_session-IsAligned u m a).at_id i,
    find-insert u i s (remove_session u m).active_sessions,
    find-insert u i name (remove_session u m).user_id_to_username,
  );
}

-- `sessions_exact` for any two users.
pub sessions_after :
    (user_id other : ℕ) (username : String) (session : ℕ) (m : UserManager)
    → (get_session user_id (add_session user_id username session m) ≡ some session)
      × (is_session_active user_id (remove_session user_id m) ≡ false)
      × (user_id ≢ other
          → (get_session other (add_session user_id username session m) ≡ get_session other m)
            × (get_session other (remove_session user_id m) ≡ get_session other m))
unfolding get_session is_session_active
sessions_after u v name s m = (
  active-add_session u u name s m ∙ ground arith,
  ground (arith, active-remove_session u u m),
  λ ne.
      (active-add_session u v name s m ∙ ground arith, active-remove_session u v m ∙ ground arith),
)

-- After a login the user's session is the new one, after a removal the user has none, and the
-- other users' sessions are as before.
pub sessions_exact :
    (user_id other : ℕ) (username : String) (session : ℕ) (m : UserManager)
    → user_id ≢ other
    → (get_session user_id (add_session user_id username session m) ≡ some session)
      × (is_session_active user_id (remove_session user_id m) ≡ false)
      × (get_session other (add_session user_id username session m) ≡ get_session other m)
      × (get_session other (remove_session user_id m) ≡ get_session other m)
sessions_exact u v name s m ne =
    let after = sessions_after u v name s m in (after.0, after.1, (after.2 ne).0, (after.2 ne).1)

find_username-insert :
    (name : String) (u : ℕ) (m : List (ℕ × String))
    → find_username name m ≡ none
    → find_username name (insert u name m) ≡ some u
unfolding find_username insert
find_username-insert name u [] h = rw (eq_refl name) refl
find_username-insert name u ((i, n) ∷ m) h =
    ground (arith, eq_refl name, find_username-insert name u m)

-- A user who logs in under a name that nobody else is logged in under is found by that name, with
-- the session of the login.
pub get_session_by_username-add_session :
    (user_id : ℕ) (username : String) (session : ℕ) (m : UserManager)
    → find_username username (remove_session user_id m).user_id_to_username ≡ none
    → get_session_by_username username (add_session user_id username session m) ≡ some session
unfolding get_session_by_username add_session
get_session_by_username-add_session u name s m h =
    rw (find_username-insert name u _ h, get_session_by_username) ((sessions_after u u name s m).0)
