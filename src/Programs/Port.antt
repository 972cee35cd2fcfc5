-- ===== src/Programs/Port.antt =====
-- The number that server/server.cpp makes of its argument, and the port that it becomes.
pub mod Decimal
use Prim.Native.Char.{Char, code}
use asynchronous_messenger.Base.{
  ℕ, ◌+◌, ◌-◌, ◌*◌, ◌%◌, ◌^◌, String, Bool, ◌&&◌, ◌||◌, ◌==◌, nat_eq, if◌then◌else◌, Option, none,
  some, ltb, leb, ◌≡◌, refl,
}
use asynchronous_messenger.Base.Int.{ℤ, pos, negsuc}

-- std::isspace and std::isdigit
abbrev pub is_space : ℕ → Bool
is_space c = c == 32 || leb 9 c && leb c 13

abbrev pub is_digit : ℕ → Bool
is_digit c = leb 48 c && leb c 57

-- The digits that a text begins with, behind the number n.
unfoldable pub digits_behind : ℕ → String → ℕ
digits_behind n String.[] = n
digits_behind n (String.◌∷◌ c s) =
    let rest = digits_behind (n * 10 + (code c - 48)) s in if is_digit (code c) then rest else n

abbrev pub negated : ℕ → ℤ
negated n = if n == 0 then pos 0 else negsuc (n - 1)

unfoldable pub signed_number : String → ℤ
unfolding digits_behind
signed_number String.[] = pos 0
signed_number (String.◌∷◌ c s) =
    if code c == b'-'
    then negated (digits_behind 0 s)
    else if code c == b'+'
    then pos (digits_behind 0 s)
    else pos (digits_behind 0 (String.◌∷◌ c s))

unfoldable pub without_spaces : String → String
without_spaces String.[] = String.[]
without_spaces (String.◌∷◌ c s) =
    let rest = without_spaces s in if is_space (code c) then rest else String.◌∷◌ c s

-- A number, if it is an `int`.
abbrev pub as_int : ℤ → Option ℤ
as_int (pos n) = if ltb n (2 ^ 31) then some (pos n) else none
as_int (negsuc n) = if ltb n (2 ^ 31) then some (negsuc n) else none

-- std::atoi; `none` where its behaviour is undefined
unfoldable pub atoi : String → Option ℤ
unfolding signed_number without_spaces
atoi s = as_int (signed_number (without_spaces s))

-- The low 16 bits of a number.
abbrev pub low_bits : ℤ → ℕ
low_bits (pos n) = n % 2 ^ 16
low_bits (negsuc n) = 2 ^ 16 - 1 - n % 2 ^ 16

-- `int` to `short`, the parameter of Server::Server
unfoldable pub short_of : ℤ → ℤ
short_of z =
    if ltb (low_bits z) (2 ^ 15) then pos (low_bits z) else negsuc (2 ^ 16 - 1 - low_bits z)

-- `short` to `unsigned short`, the parameter of tcp::endpoint
unfoldable pub ushort_of : ℤ → ℕ
ushort_of z = low_bits z

atoi_tests :
    (atoi " 80a" ≡ some (pos 80))
    × (atoi "-1" ≡ some (negsuc 0))
    × (atoi "port" ≡ some (pos 0))
    × (atoi "2147483648" ≡ none)
unfolding atoi
atoi_tests = (refl, refl, refl, refl)
