-- ===== src/Programs/Port/Decimal.antt =====
-- std::atoi (server/server.cpp) on the decimal text of a number.
use Prim.Native.Char.{code}
use asynchronous_messenger.Base.{
  ℕ, zero, suc, ◌+◌, ◌/◌, ◌%◌, ◌^◌, ◌<◌, String, true, ◌==◌, nat_eq, some, ◌≡◌, refl, ◌∙◌, arith,
  Bool-cases, inl, inr, if_true, if_false, if_cases, ap, sym, ltb, to_string, decimal, digit,
  digit-value,
}
use asynchronous_messenger.Base.Int.{ℤ, pos}
use asynchronous_messenger.Programs.Port.{
  digits_behind, signed_number, without_spaces, atoi, as_int, short_of, ushort_of, low_bits,
  is_digit, is_space,
}

-- The last digit of n is read behind the others.
digits_behind-digit :
    (n : ℕ) (out : String)
    → digits_behind (n / 10) (String.◌∷◌ (digit (n % 10)) out) ≡ digits_behind n out
unfolding digits_behind
digits_behind-digit n out = rw (digit-value (n % 10) (omega arith)) (
    if_true (is_digit (48 + n % 10)) _ _ (ground arith)
    ∙ ap (λ m. digits_behind m out) (omega arith))

digits_behind-decimal :
    (f n : ℕ) (out : String) → n < 10 ^ f → digits_behind 0 (decimal f n out) ≡ digits_behind n out
unfolding decimal
digits_behind-decimal zero n out lt = ap (λ m. digits_behind m out) (omega arith)
digits_behind-decimal (suc f) n out lt = elim (Bool-cases (n == 0)) [
  | inl e ↦ rw e (ap (λ m. digits_behind m out) (sym ((nat_eq.same_iff n 0).0 e)))
  | inr e ↦ rw e (
      digits_behind-decimal f (n / 10) (String.◌∷◌ (digit (n % 10)) out) (grind arith)
      ∙ digits_behind-digit n out)
]

-- The text begins with a digit.
abbrev BeginsWithDigit : String → Type 0
BeginsWithDigit String.[] = ⊥
BeginsWithDigit (String.◌∷◌ c s) = is_digit (code c) ≡ true

decimal-BeginsWithDigit :
    (f n : ℕ) (out : String) → BeginsWithDigit out → BeginsWithDigit (decimal f n out)
unfolding decimal
decimal-BeginsWithDigit zero n out h = h
decimal-BeginsWithDigit (suc f) n out h =
    if_cases BeginsWithDigit (n == 0) _ _ (λ _. h)
      (λ _.
        decimal-BeginsWithDigit f (n / 10) _
          (rw (digit-value (n % 10) (omega arith)) (ground arith)))

to_string-BeginsWithDigit : (n : ℕ) → BeginsWithDigit (to_string n)
unfolding to_string decimal
to_string-BeginsWithDigit n =
    if_cases BeginsWithDigit (n == 0) _ _ (λ _. refl)
      (λ e. rw e (
        decimal-BeginsWithDigit 19 (n / 10) _
          (rw (digit-value (n % 10) (omega arith)) (ground arith))))

atoi-digits : (s : String) → BeginsWithDigit s → atoi s ≡ as_int (pos (digits_behind 0 s))
unfolding atoi without_spaces signed_number
atoi-digits String.[] h = absurd h
atoi-digits (String.◌∷◌ c s) h =
    ap (λ t. as_int (signed_number t)) (if_false (is_space (code c)) _ _ (ground arith))
    ∙ ap as_int (
        if_false (code c == b'-') _ _ (ground arith) ∙ if_false (code c == b'+') _ _ (ground arith))

digits_behind-to_string : (n : ℕ) → n < 10 ^ 20 → digits_behind 0 (to_string n) ≡ n
unfolding to_string digits_behind
digits_behind-to_string n lt = elim (Bool-cases (n == 0)) [
  | inl e ↦ rw e (sym ((nat_eq.same_iff n 0).0 e))
  | inr e ↦ rw e (digits_behind-decimal 20 n "" lt)
]

-- The decimal text of an `int` that is not negative is read as that number.
pub atoi-to_string : (n : ℕ) → n < 2 ^ 31 → atoi (to_string n) ≡ some (pos n)
atoi-to_string n lt =
    atoi-digits (to_string n) (to_string-BeginsWithDigit n)
    ∙ ap (λ m. as_int (pos m)) (digits_behind-to_string n (omega arith))
    ∙ if_true (ltb n (2 ^ 31)) _ _ (ground arith)

-- A number, as `int`, `short` and then `unsigned short`, keeps its low 16 bits.
pub ushort_of-short_of : (z : ℤ) → ushort_of (short_of z) ≡ low_bits z
unfolding ushort_of short_of
ushort_of-short_of z = ground arith
