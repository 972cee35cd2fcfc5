-- ===== src/Tests/Codec.antt =====
-- A serialization of Json/Sample.antt that can be parsed again.
use Prim.Native.Nat.{compare, Ordering}
use Prim.Native.Char.{Char, char, code, nul, IsScalar, IsLt}
use asynchronous_messenger.Base.{
  ℕ, zero, suc, ◌+◌, ◌-◌, String, true, false, ◌≡◌, refl, subst, ap, ◌∙◌, Option, none, some,
  some_inj, List, [], ◌∷◌, ◌==◌, nat_eq, if◌then◌else◌, if_false, arith, length, is_empty,
}
use asynchronous_messenger.Wire.Frames.{has_newline}
use asynchronous_messenger.Client.Transport.{RoundTrips}
use asynchronous_messenger.Json.{JsonLib, JsonLaws, Serializes, Value, text, flag, number}
use asynchronous_messenger.Json.Sample.{Sample, null, list, object, sample_lib, sample_laws}

abbrev lt_case : (o : Ordering) → Option (IsLt o)
lt_case Ordering.lt = some tt
lt_case Ordering.eq = none
lt_case Ordering.gt = none

-- IsScalar, on the results of its three comparisons.
abbrev BothLt : Ordering → Ordering → Type 0
BothLt Ordering.lt o = IsLt o
BothLt Ordering.eq _ = ⊥
BothLt Ordering.gt _ = ⊥

abbrev Scalar : Ordering → Ordering → Ordering → Type 0
Scalar Ordering.lt _ _ = Unit
Scalar Ordering.eq o p = BothLt o p
Scalar Ordering.gt o p = BothLt o p

abbrev both_case : (o p : Ordering) → Option (BothLt o p)
both_case Ordering.lt p = lt_case p
both_case Ordering.eq p = none
both_case Ordering.gt p = none

abbrev scalar_case : (o p q : Ordering) → Option (Scalar o p q)
scalar_case Ordering.lt p q = some tt
scalar_case Ordering.eq p q = both_case p q
scalar_case Ordering.gt p q = both_case p q

lt_found : (o : Ordering) (h : IsLt o) → lt_case o ≡ some h
lt_found Ordering.lt h = refl
lt_found Ordering.eq h = elim h [ ]
lt_found Ordering.gt h = elim h [ ]

both_found : (o p : Ordering) (h : BothLt o p) → both_case o p ≡ some h
both_found Ordering.lt p h = lt_found p h
both_found Ordering.eq p h = elim h [ ]
both_found Ordering.gt p h = elim h [ ]

scalar_found : (o p q : Ordering) (h : Scalar o p q) → scalar_case o p q ≡ some h
scalar_found Ordering.lt p q h = refl
scalar_found Ordering.eq p q h = both_found p q h
scalar_found Ordering.gt p q h = both_found p q h

abbrev char_or : (n : ℕ) → Option (IsScalar n) → Char
char_or n none = nul
char_or n (some h) = char n h

unfoldable pub char_of : ℕ → Char
char_of n = char_or n (scalar_case (compare n 55296) (compare 57343 n) (compare n 1114112))

char_of-code : (c : Char) → char_of (code c) ≡ c
unfolding char_of
char_of-code (char n h) =
    ap (char_or n) (scalar_found (compare n 55296) (compare 57343 n) (compare n 1114112) h)

-- Texts end at 11, values begin with their kind, members are counted; what follows is `rest`.
unfoldable pub put_text : String → List ℕ → List ℕ
put_text String.[] rest = 11 ∷ rest
put_text (String.◌∷◌ c s) rest = (code c + 12) ∷ put_text s rest

unfoldable pub get_text : List ℕ → String × List ℕ
unfolding char_of
get_text [] = (String.[], [])
get_text (b ∷ bs) =
    let r = get_text bs in
    if b == 11 then (String.[], bs) else (String.◌∷◌ (char_of (b - 12)) r.0, r.1)

get_text-put : (s : String) (rest : List ℕ) → get_text (put_text s rest) ≡ (s, rest)
unfolding get_text put_text
get_text-put String.[] rest = refl
get_text-put (String.◌∷◌ c s) rest =
    let same : char_of (code c + 12 - 12) ≡ c = ap char_of (the_code (code c)) ∙ char_of-code c in
    if_false (code c + 12 == 11) _ _ (ground arith)
    ∙ ap (λ d. (String.◌∷◌ d (get_text (put_text s rest)).0, (get_text (put_text s rest)).1)) same
    ∙ ap (λ (r : String × List ℕ). (String.◌∷◌ c r.0, r.1)) (get_text-put s rest)
  where
    the_code : (n : ℕ) → n + 12 - 12 ≡ n
    the_code n = omega arith

abbrev first : List ℕ → ℕ
first [] = 0
first (b ∷ bs) = b

abbrev behind : List ℕ → List ℕ
behind [] = []
behind (b ∷ bs) = bs

unfoldable pub put_value : Value → List ℕ → List ℕ
unfolding put_text
put_value (text s) rest = 12 ∷ put_text s rest
put_value (flag true) rest = 13 ∷ 12 ∷ rest
put_value (flag false) rest = 13 ∷ 11 ∷ rest
put_value (number n) rest = 14 ∷ (n + 11) ∷ rest

unfoldable pub get_value : List ℕ → Value × List ℕ
unfolding get_text
get_value bs =
    if first bs == 12
    then (text (get_text (behind bs)).0, (get_text (behind bs)).1)
    else if first bs == 13
    then (flag (first (behind bs) == 12), behind (behind bs))
    else (number (first (behind bs) - 11), behind (behind bs))

get_value-put : (v : Value) (rest : List ℕ) → get_value (put_value v rest) ≡ (v, rest)
unfolding get_value put_value
get_value-put (text s) rest = ap (λ (r : String × List ℕ). (text r.0, r.1)) (get_text-put s rest)
get_value-put (flag true) rest = refl
get_value-put (flag false) rest = refl
get_value-put (number n) rest = ap (λ k. (number k, rest)) (the_number n)
  where
    the_number : (n : ℕ) → n + 11 - 11 ≡ n
    the_number n = omega arith

unfoldable pub put_members : List (String × Value) → List ℕ
unfolding put_text put_value
put_members [] = []
put_members ((k, v) ∷ fs) = put_text k (put_value v (put_members fs))

unfoldable pub get_members : ℕ → List ℕ → List (String × Value)
unfolding get_text get_value
get_members zero bs = []
get_members (suc n) bs =
    let k = get_text bs in let v = get_value k.1 in (k.0, v.0) ∷ get_members n v.1

get_members-put : (fs : List (String × Value)) → get_members (length fs) (put_members fs) ≡ fs
unfolding get_members put_members
get_members-put [] = refl
get_members-put ((k, v) ∷ fs) =
    ap
      (λ (r : String × List ℕ).
        (r.0, (get_value r.1).0) ∷ get_members (length fs) (get_value r.1).1)
      (get_text-put k (put_value v (put_members fs)))
    ∙ ap (λ (r : Value × List ℕ). (k, r.0) ∷ get_members (length fs) r.1)
        (get_value-put v (put_members fs))
    ∙ ap (◌∷◌ (k, v)) (get_members-put fs)

abbrev pub encoded : Sample → List ℕ
encoded null = 11 ∷ []
encoded list = 12 ∷ []
encoded (object fs) = 13 ∷ (length fs + 11) ∷ put_members fs

abbrev pub decoded : List ℕ → Option Sample
decoded [] = none
decoded (t ∷ bs) =
    if t == 11
    then some null
    else if t == 12
    then some list
    else some (object (get_members (first bs - 11) (behind bs)))

decoded-encoded : (j : Sample) → decoded (encoded j) ≡ some j
decoded-encoded null = refl
decoded-encoded list = refl
decoded-encoded (object fs) =
    ap (λ n. some (object (get_members n (put_members fs)))) (counted (length fs))
    ∙ ap (λ gs. some (object gs)) (get_members-put fs)
  where
    counted : (n : ℕ) → n + 11 - 11 ≡ n
    counted n = omega arith

text-one_line :
    (s : String) (rest : List ℕ) → has_newline rest ≡ false → has_newline (put_text s rest) ≡ false
unfolding put_text
text-one_line String.[] rest h = h
text-one_line (String.◌∷◌ c s) rest h = ground (arith, text-one_line s rest h)

value-one_line :
    (v : Value) (rest : List ℕ) → has_newline rest ≡ false → has_newline (put_value v rest) ≡ false
unfolding put_value
value-one_line (text s) rest h = text-one_line s rest h
value-one_line (flag true) rest h = h
value-one_line (flag false) rest h = h
value-one_line (number n) rest h = ground (arith, h)

members-one_line : (fs : List (String × Value)) → has_newline (put_members fs) ≡ false
unfolding put_members
members-one_line [] = refl
members-one_line ((k, v) ∷ fs) = text-one_line k _ (value-one_line v _ (members-one_line fs))

encoded-one_line : (j : Sample) → has_newline (encoded j) ≡ false
encoded-one_line null = refl
encoded-one_line list = refl
encoded-one_line (object fs) = ground (arith, members-one_line fs)

encoded-filled : (j : Sample) → is_empty (encoded j) ≡ false
encoded-filled null = refl
encoded-filled list = refl
encoded-filled (object fs) = refl

abbrev pub codec : JsonLib Sample
codec = record (sample_lib decoded) { dump = λ j. some (encoded j) }

pub codec_laws : JsonLaws codec
codec_laws =
    let laws = sample_laws decoded in
    record {
      null_contains = laws.null_contains;
      null_settable = laws.null_settable;
      contains_settable = laws.contains_settable;
      put_settable = laws.put_settable;
      contains_put = laws.contains_put;
      string_put = laws.string_put;
      bool_put = laws.bool_put;
      time_put = laws.time_put;
    }

pub codec-Serializes : Serializes codec
codec-Serializes = record { dumps = λ j. (encoded j, refl) }

pub codec-RoundTrips : RoundTrips codec
codec-RoundTrips = record {
  parses = λ j s e. subst (λ t. decoded t ≡ some j) (some_inj e) (decoded-encoded j);
  one_line = λ j s e. subst (λ t. has_newline t ≡ false) (some_inj e) (encoded-one_line j);
  filled = λ j s e. subst (λ t. is_empty t ≡ false) (some_inj e) (encoded-filled j);
}
