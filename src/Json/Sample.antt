-- ===== src/Json/Sample.antt =====
-- A small JSON library, at which the theorems of the other modules are applied: objects are lists of
-- members, and the texts that it parses are entries of a table.
use asynchronous_messenger.Base.{
  ℕ, String, Bool, true, false, ◌≡◌, refl, Option, none, some, List, [], ◌∷◌, ◌==◌, string_eq,
  if◌then◌else◌, arith,
}
use asynchronous_messenger.Json.{Value, JsonLib, JsonLaws, string_of, bool_of, time_of}

pub data Sample : Type 0 where
  null : Sample
  list : Sample
  object : List (String × Value) → Sample

abbrev pub is_settable : Sample → Bool
is_settable null = true
is_settable list = false
is_settable (object fs) = true

abbrev pub members : Sample → List (String × Value)
members null = []
members list = []
members (object fs) = fs

unfoldable pub member : String → List (String × Value) → Option Value
member k [] = none
member k ((j, v) ∷ fs) = if j == k then some v else member k fs

abbrev pub is_some : Option Value → Bool
is_some none = false
is_some (some v) = true

abbrev pub string_member : Option Value → Option String
string_member none = none
string_member (some v) = string_of v

abbrev pub bool_member : Option Value → Option Bool
bool_member none = none
bool_member (some v) = bool_of v

abbrev pub put : Sample → String → Value → Sample
put list k v = list
put j k v = object ((k, v) ∷ members j)

abbrev pub time_member : Option Value → Option ℕ
time_member none = none
time_member (some v) = time_of v

-- The texts that the library parses, each with its value.
abbrev pub sample_lib : (List ℕ → Option Sample) → JsonLib Sample
sample_lib table = record {
  parse = table;
  dump = λ j. some (91 ∷ 93 ∷ []);
  null = null;
  is_settable = is_settable;
  contains = λ j k. is_some (member k (members j));
  as_string = λ j k. string_member (member k (members j));
  as_bool = λ j k. bool_member (member k (members j));
  as_time = λ j k. time_member (member k (members j));
  put = put;
}

settable-contains :
    (j : Sample) (k : String) → is_some (member k (members j)) ≡ true → is_settable j ≡ true
unfolding member
settable-contains null k h = refl
settable-contains list k h = ground arith
settable-contains (object fs) k h = refl

settable-put :
    (j : Sample) (k : String) (v : Value) → is_settable j ≡ true → is_settable (put j k v) ≡ true
settable-put null k v h = refl
settable-put list k v h = ground arith
settable-put (object fs) k v h = refl

member-put :
    (j : Sample) (k i : String) (v : Value)
    → is_settable j ≡ true
    → member i (members (put j k v)) ≡ (if k == i then some v else member i (members j))
unfolding member
member-put null k i v h = refl
member-put list k i v h = ground arith
member-put (object fs) k i v h = refl

pub sample_laws : (table : List ℕ → Option Sample) → JsonLaws (sample_lib table)
unfolding member
sample_laws table = record {
  null_contains = λ k. refl;
  null_settable = refl;
  contains_settable = settable-contains;
  put_settable = settable-put;
  contains_put = λ j k i v h. ground (arith, member-put j k i v h);
  string_put = λ j k i v h. ground (arith, member-put j k i v h);
  bool_put = λ j k i v h. ground (arith, member-put j k i v h);
  time_put = λ j k i v h. ground (arith, member-put j k i v h);
}
