-- ===== src/Base/Text.antt =====
-- Texts: `std::string` as a text of characters, `c_str()` and `std::to_string` on it.
use Prim.Native.Nat.{ℕ, zero, suc, ◌+◌, ◌/◌, ◌%◌, ◌<◌}
use Prim.Native.Char.{Char, code}
use Prim.Native.String.{String}
use mathlib.Core.Path.{◌≡◌, refl, ap}
use mathlib.Core.List.{List, [], ◌∷◌}
use mathlib.Core.Bool.{Bool, true, false}
use native.Mathlib.Omega.{arith}
use mathlib.Core.Logic.{inl, inr}
use asynchronous_messenger.Base.Tests.{◌==◌, nat_eq, ltb, if◌then◌else◌, Bool-cases}

-- The code points of a text: its bytes, if it is ASCII.
unfoldable pub codes : String → List ℕ
codes String.[] = []
codes (String.◌∷◌ c s) = code c ∷ codes s

-- `a + b` on `std::string`
unfoldable pub append : String → String → String
append String.[] t = t
append (String.◌∷◌ c s) t = String.◌∷◌ c (append s t)

-- `s.empty()`
unfoldable pub blank : String → Bool
blank String.[] = true
blank (String.◌∷◌ c s) = false

-- `s.length()`, in characters
unfoldable pub text_length : String → ℕ
text_length String.[] = 0
text_length (String.◌∷◌ c s) = suc (text_length s)

char_bytes : ℕ → ℕ
char_bytes n = if ltb n 128 then 1 else if ltb n 2048 then 2 else if ltb n 65536 then 3 else 4

-- `s.length()`, in bytes of UTF-8
unfoldable pub byte_length : String → ℕ
unfolding char_bytes
byte_length String.[] = 0
byte_length (String.◌∷◌ c s) = char_bytes (code c) + byte_length s

-- `s.push_back(c)`
unfoldable pub push_back : String → Char → String
push_back String.[] c = String.◌∷◌ c String.[]
push_back (String.◌∷◌ d s) c = String.◌∷◌ d (push_back s c)

-- `s.pop_back()`, on a text that is not empty
unfoldable pub pop_back : String → String
pop_back String.[] = String.[]
pop_back (String.◌∷◌ c s) =
    let rest = pop_back s in if blank s then String.[] else String.◌∷◌ c rest

-- `s.substr(n)`
unfoldable pub text_drop : ℕ → String → String
text_drop zero s = s
text_drop (suc n) String.[] = String.[]
text_drop (suc n) (String.◌∷◌ c s) = text_drop n s

-- What a C function sees of `s.c_str()`: the text up to its first NUL.
unfoldable pub c_str : String → String
c_str String.[] = String.[]
c_str (String.◌∷◌ c s) = let rest = c_str s in if code c == 0 then String.[] else String.◌∷◌ c rest

unfoldable pub digit : ℕ → Char
digit zero = "0"
digit (suc zero) = "1"
digit (suc (suc zero)) = "2"
digit (suc (suc (suc zero))) = "3"
digit (suc (suc (suc (suc zero)))) = "4"
digit (suc (suc (suc (suc (suc zero))))) = "5"
digit (suc (suc (suc (suc (suc (suc zero)))))) = "6"
digit (suc (suc (suc (suc (suc (suc (suc zero))))))) = "7"
digit (suc (suc (suc (suc (suc (suc (suc (suc zero)))))))) = "8"
digit _ = "9"

unfoldable pub decimal : ℕ → ℕ → String → String
unfolding digit
decimal zero n out = out
decimal (suc f) n out =
    let rest = decimal f (n / 10) (String.◌∷◌ (digit (n % 10)) out) in if n == 0 then out else rest

-- `std::to_string` of a 64-bit number, which has twenty digits at most
unfoldable pub to_string : ℕ → String
to_string n = if n == 0 then "0" else decimal 20 n String.[]

to_string-max : to_string 18446744073709551615 ≡ "18446744073709551615"
unfolding to_string decimal
to_string-max = refl

c_str_test : c_str "ab" ≡ "ab"
unfolding c_str
c_str_test = refl

digit-code : (d : ℕ) → (code (digit d) == 0) ≡ false
unfolding digit
digit-code zero = refl
digit-code (suc zero) = refl
digit-code (suc (suc zero)) = refl
digit-code (suc (suc (suc zero))) = refl
digit-code (suc (suc (suc (suc zero)))) = refl
digit-code (suc (suc (suc (suc (suc zero))))) = refl
digit-code (suc (suc (suc (suc (suc (suc zero)))))) = refl
digit-code (suc (suc (suc (suc (suc (suc (suc zero))))))) = refl
digit-code (suc (suc (suc (suc (suc (suc (suc (suc zero)))))))) = refl
digit-code _ = refl

-- The code of a digit.
pub digit-value : (d : ℕ) → d < 10 → code (digit d) ≡ 48 + d
unfolding digit
digit-value zero h = refl
digit-value (suc zero) h = refl
digit-value (suc (suc zero)) h = refl
digit-value (suc (suc (suc zero))) h = refl
digit-value (suc (suc (suc (suc zero)))) h = refl
digit-value (suc (suc (suc (suc (suc zero))))) h = refl
digit-value (suc (suc (suc (suc (suc (suc zero)))))) h = refl
digit-value (suc (suc (suc (suc (suc (suc (suc zero))))))) h = refl
digit-value (suc (suc (suc (suc (suc (suc (suc (suc zero)))))))) h = refl
digit-value (suc (suc (suc (suc (suc (suc (suc (suc (suc zero))))))))) h = refl
digit-value (suc (suc (suc (suc (suc (suc (suc (suc (suc (suc d)))))))))) h = absurd (omega arith)

c_str-decimal :
    (f n : ℕ) (out : String) → c_str out ≡ out → c_str (decimal f n out) ≡ decimal f n out
unfolding decimal c_str
c_str-decimal zero n out h = h
c_str-decimal (suc f) n out h = elim (Bool-cases (n == 0)) [
  | inl e ↦ rw e h
  | inr e ↦
      rw e
        (c_str-decimal f (n / 10) _ (rw (digit-code (n % 10)) (ap (String.◌∷◌ (digit (n % 10))) h)))
]

-- A number's digits hold no NUL.
pub c_str-to_string : (n : ℕ) → c_str (to_string n) ≡ to_string n
unfolding to_string c_str
c_str-to_string n = elim (Bool-cases (n == 0)) [
  | inl e ↦ rw e refl
  | inr e ↦ rw e (c_str-decimal 20 n String.[] refl)
]

pub c_str_idem : (s : String) → c_str (c_str s) ≡ c_str s
unfolding c_str
c_str_idem String.[] = refl
c_str_idem (String.◌∷◌ c s) = elim (Bool-cases (code c == 0)) [
  | inl e ↦ rw e refl
  | inr e ↦ rw (e, e) (ap (String.◌∷◌ c) (c_str_idem s))
]

pub text_length-append : (s t : String) → text_length (append s t) ≡ text_length s + text_length t
unfolding text_length append
text_length-append String.[] t = ground arith
text_length-append (String.◌∷◌ c s) t = ground (arith, text_length-append s t)

pub text_drop-append : (s t : String) → text_drop (text_length s) (append s t) ≡ t
unfolding text_length text_drop append
text_drop-append String.[] t = refl
text_drop-append (String.◌∷◌ c s) t = text_drop-append s t

pub pop_back-push_back : (s : String) (c : Char) → pop_back (push_back s c) ≡ s
unfolding pop_back push_back blank
pop_back-push_back String.[] c = refl
pop_back-push_back (String.◌∷◌ d String.[]) c = refl
pop_back-push_back (String.◌∷◌ d (String.◌∷◌ e s)) c =
    ap (String.◌∷◌ d) (pop_back-push_back (String.◌∷◌ e s) c)

pub push_back-blank : (s : String) (c : Char) → blank (push_back s c) ≡ false
unfolding push_back blank
push_back-blank String.[] c = refl
push_back-blank (String.◌∷◌ d s) c = refl

pub push_back-append :
    (s : String) (c : Char) (t : String) → append (push_back s c) t ≡ append s (String.◌∷◌ c t)
unfolding push_back append
push_back-append String.[] c t = refl
push_back-append (String.◌∷◌ d s) c t = ap (String.◌∷◌ d) (push_back-append s c t)

pub append-empty : (s : String) → append s String.[] ≡ s
unfolding append
append-empty String.[] = refl
append-empty (String.◌∷◌ c s) = ap (String.◌∷◌ c) (append-empty s)
