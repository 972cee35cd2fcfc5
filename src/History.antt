-- ===== src/History.antt =====
-- client/local_history_store.cpp and client/include/local_history_store.h: a class of placeholders,
-- which no other part of the client uses. Each method gives the lines that it writes to std::cout.
use asynchronous_messenger.Base.{
  ℕ, String, Bool, false, List, [], ◌∷◌, ◌++◌, if◌then◌else◌, append, ◌≡◌, refl, if_cases,
}

-- struct LocalMessage
pub record LocalMessage : Type 0 where
  pub sender : String
  pub content : String
  pub timestamp : ℕ
  pub is_self : Bool

-- LocalMessage::LocalMessage, with the default of its last parameter
abbrev pub local_message : String → String → ℕ → LocalMessage
local_message sender content timestamp = record {
  sender = sender;
  content = content;
  timestamp = timestamp;
  is_self = false;
}

-- class LocalHistoryStore
pub record LocalHistoryStore : Type 0 where
  pub username : String
  pub history_file : String
  pub enabled : Bool

-- LocalHistoryStore::initializeStorage
unfoldable pub initialize_storage : LocalHistoryStore → List String
initialize_storage s = append "LocalHistoryStore: Initialized for user " s.username ∷ []

-- LocalHistoryStore::LocalHistoryStore
unfoldable pub new_store : String → LocalHistoryStore × List String
unfolding initialize_storage
new_store username =
    let s : LocalHistoryStore = record {
      username = username;
      history_file = append username "_history.txt";
      enabled = false;
    } in
    (s, initialize_storage s)

-- LocalHistoryStore::saveMessage
unfoldable pub save_message : String → String → ℕ → LocalHistoryStore → List String
save_message sender content timestamp s =
    if s.enabled then append "LocalHistoryStore: Would save message from " sender ∷ [] else []

-- LocalHistoryStore::loadHistory; the list that it returns, too
unfoldable pub load_history : String → ℕ → LocalHistoryStore → List LocalMessage × List String
load_history chat_partner limit s =
    if s.enabled
    then ([], append "LocalHistoryStore: Would load history with " chat_partner ∷ [])
    else ([], [])

-- LocalHistoryStore::clearHistory
unfoldable pub clear_history : String → LocalHistoryStore → List String
clear_history chat_partner s =
    if s.enabled then "LocalHistoryStore: Would clear history" ∷ [] else []

-- LocalHistoryStore::setEnabled
abbrev pub set_enabled : Bool → LocalHistoryStore → LocalHistoryStore
set_enabled b s = record s { enabled = b }

-- LocalHistoryStore::isEnabled
abbrev pub is_enabled : LocalHistoryStore → Bool
is_enabled s = s.enabled

-- LocalHistoryStore::writeToFile
abbrev pub write_to_file : LocalMessage → LocalHistoryStore → LocalHistoryStore
write_to_file message s = s

-- The calls of a store.
pub data StoreCall : Type 0 where
  saving : String → String → ℕ → StoreCall
  loading : String → ℕ → StoreCall
  clearing : String → StoreCall
  enabling : Bool → StoreCall

-- A call, with what it loads and the lines that it writes.
unfoldable pub perform :
    StoreCall → LocalHistoryStore → LocalHistoryStore × List LocalMessage × List String
unfolding save_message load_history clear_history
perform (saving sender content timestamp) s = (s, [], save_message sender content timestamp s)
perform (loading chat_partner limit) s = let r = load_history chat_partner limit s in (s, r.0, r.1)
perform (clearing chat_partner) s = (s, [], clear_history chat_partner s)
perform (enabling b) s = (set_enabled b s, [], [])

unfoldable pub perform_all :
    List StoreCall → LocalHistoryStore → LocalHistoryStore × List LocalMessage × List String
unfolding perform
perform_all [] s = (s, [], [])
perform_all (c ∷ cs) s =
    let r = perform c s in let rest = perform_all cs r.0 in (rest.0, r.1 ++ rest.1, r.2 ++ rest.2)

perform-loads : (c : StoreCall) (s : LocalHistoryStore) → (perform c s).1 ≡ []
unfolding perform
perform-loads (saving sender content timestamp) s = refl
perform-loads (loading chat_partner limit) s =
    if_cases (λ (r : List LocalMessage × List String). r.0 ≡ []) s.enabled _ _ (λ _. refl)
      (λ _. refl)
perform-loads (clearing chat_partner) s = refl
perform-loads (enabling b) s = refl

-- Whatever was saved before, nothing is loaded.
nothing_loaded : (cs : List StoreCall) (s : LocalHistoryStore) → (perform_all cs s).1 ≡ []
unfolding perform_all
nothing_loaded [] s = refl
nothing_loaded (c ∷ cs) s = rw (perform-loads c s) (nothing_loaded cs (perform c s).0)
