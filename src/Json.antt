-- ===== src/Json.antt =====
-- nlohmann::json, which is not part of the repository: the calls that server/*.cpp and client/*.cpp
-- make of it, as a record that the model takes as an argument. The laws that a theorem relies on are
-- a second record; Json/Sample.antt has a value of both.
pub mod Sample
pub mod Objects
use asynchronous_messenger.Base.{
  ℕ, String, Bool, true, false, ◌≡◌, Option, none, some, List, ◌==◌, string_eq, if◌then◌else◌,
}

-- What the sources assign to a member of an object.
pub data Value : Type 0 where
  text : String → Value
  flag : Bool → Value
  number : ℕ → Value

pub record JsonLib (Json : Type 0) : Type 0 where
  -- json::parse(text); `none` is json::parse_error
  pub parse : List ℕ → Option Json
  -- j.dump(); `none` is the exception on text that is not UTF-8
  pub dump : Json → Option (List ℕ)
  -- json j;
  pub null : Json
  -- j is null or an object, so that `j[key] = v` does not throw
  pub is_settable : Json → Bool
  -- j.contains(key)
  pub contains : Json → String → Bool
  -- std::string s = j[key]; `none` is json::type_error
  pub as_string : Json → String → Option String
  -- bool b = j[key]
  pub as_bool : Json → String → Option Bool
  -- std::time_t t = j[key]
  pub as_time : Json → String → Option ℕ
  -- j[key] = v, on null or an object
  pub put : Json → String → Value → Json

abbrev pub string_of : Value → Option String
string_of (text s) = some s
string_of (flag b) = none
string_of (number n) = none

abbrev pub bool_of : Value → Option Bool
bool_of (text s) = none
bool_of (flag b) = some b
bool_of (number n) = none

-- A boolean converts to a number.
abbrev pub time_of : Value → Option ℕ
time_of (text s) = none
time_of (flag b) = some (if b then 1 else 0)
time_of (number n) = some n

pub record JsonLaws {Json : Type 0} (lib : JsonLib Json) : Type 0 where
  pub null_contains : (k : String) → lib.contains lib.null k ≡ false
  pub null_settable : lib.is_settable lib.null ≡ true
  pub contains_settable :
      (j : Json) (k : String) → lib.contains j k ≡ true → lib.is_settable j ≡ true
  pub put_settable :
      (j : Json) (k : String) (v : Value)
      → lib.is_settable j ≡ true
      → lib.is_settable (lib.put j k v) ≡ true
  pub contains_put :
      (j : Json) (k i : String) (v : Value)
      → lib.is_settable j ≡ true
      → lib.contains (lib.put j k v) i ≡ (if k == i then true else lib.contains j i)
  pub string_put :
      (j : Json) (k i : String) (v : Value)
      → lib.is_settable j ≡ true
      → lib.as_string (lib.put j k v) i ≡ (if k == i then string_of v else lib.as_string j i)
  pub bool_put :
      (j : Json) (k i : String) (v : Value)
      → lib.is_settable j ≡ true
      → lib.as_bool (lib.put j k v) i ≡ (if k == i then bool_of v else lib.as_bool j i)
  pub time_put :
      (j : Json) (k i : String) (v : Value)
      → lib.is_settable j ≡ true
      → lib.as_time (lib.put j k v) i ≡ (if k == i then time_of v else lib.as_time j i)

-- Every message can be serialized, as it can when its texts are UTF-8.
pub record Serializes {Json : Type 0} (lib : JsonLib Json) : Type 0 where
  pub dumps : (j : Json) → (text : List ℕ) × (lib.dump j ≡ some text)

-- j.value(key, otherwise): a member of another type still throws
module _ {Json : Type 0} (lib : JsonLib Json) where
  abbrev pub value_bool : Json → String → Bool → Option Bool
  value_bool j key otherwise = if lib.contains j key then lib.as_bool j key else some otherwise

  abbrev pub value_string : Json → String → String → Option String
  value_string j key otherwise = if lib.contains j key then lib.as_string j key else some otherwise

  abbrev pub value_time : Json → String → ℕ → Option ℕ
  value_time j key otherwise = if lib.contains j key then lib.as_time j key else some otherwise
