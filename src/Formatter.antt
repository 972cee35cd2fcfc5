-- ===== src/Formatter.antt =====
-- client/message_formatter.cpp: padding and centering. Texts are bytes, as std::string::length counts
-- them, and an `int` is its 32-bit pattern. formatTime, which is std::localtime and std::put_time, and
-- the functions that only put texts together are left out.
pub mod Lines
use asynchronous_messenger.Base.{
  ℕ, ◌+◌, ◌-◌, ◌/◌, ◌%◌, ◌^◌, ◌≤◌, ◌<◌, true, false, ◌≡◌, refl, Option, none, some, List, ◌++◌, ltb,
  leb, if◌then◌else◌, length, replicate, ◌>>=◌, arith, Bool-cases, inl, inr, ap, sym, append-nil,
  leb→le,
}

-- `int` to `size_t`
abbrev pub as_size : ℕ → ℕ
as_size n = if ltb n (2 ^ 31) then n else n + (2 ^ 64 - 2 ^ 32)

-- a - b on `size_t`
abbrev pub size_minus : ℕ → ℕ → ℕ
size_minus a b = (a + 2 ^ 64 - b) % 2 ^ 64

-- std::string(n, ' '), which throws for more than its max_size()
unfoldable pub spaces : ℕ → Option (List ℕ)
spaces n = if ltb n (2 ^ 63) then some (replicate n 32) else none

-- MessageFormatter::padLeft
unfoldable pub pad_left : List ℕ → ℕ → Option (List ℕ)
unfolding spaces
pad_left str width =
    if leb (as_size width) (length str)
    then some str
    else spaces (size_minus (as_size width) (length str)) >>= λ fill. some (fill ++ str)

-- MessageFormatter::padRight
unfoldable pub pad_right : List ℕ → ℕ → Option (List ℕ)
unfolding spaces
pad_right str width =
    if leb (as_size width) (length str)
    then some str
    else spaces (size_minus (as_size width) (length str)) >>= λ fill. some (str ++ fill)

-- MessageFormatter::centerText
unfoldable pub center_text : List ℕ → ℕ → Option (List ℕ)
unfolding spaces
center_text text width =
    let free = size_minus (as_size width) (length text) in
    let padding = free / 2 % 2 ^ 32 in
    if leb (as_size width) (length text)
    then some text
    else spaces (as_size padding) >>= λ left.
        spaces (size_minus free (as_size padding)) >>= λ right. some (left ++ text ++ right)

spaces-some : (n : ℕ) → n < 2 ^ 63 → spaces n ≡ some (replicate n 32)
unfolding spaces
spaces-some n lt = ground (arith, lt)

size_minus-exact : (a b : ℕ) → b ≤ a → a < 2 ^ 64 → size_minus a b ≡ a - b
size_minus-exact a b le lt = omega arith

as_size-exact : (n : ℕ) → n < 2 ^ 31 → as_size n ≡ n
as_size-exact n lt = ground (arith, lt)

leb-short : (w n : ℕ) → n < w → leb w n ≡ false
leb-short w n h = ground (arith, h)

-- Where the text does not reach the width.
center_text-short :
    (text : List ℕ) (width : ℕ)
    → width < 2 ^ 31
    → length text < width
    → center_text text width
      ≡ some (
          replicate ((width - length text) / 2) 32
          ++ text
          ++ replicate (width - length text - (width - length text) / 2) 32)
unfolding center_text
center_text-short text width lt short =
    let n = length text in
    let half = (width - n) / 2 in
    let free : size_minus width n ≡ width - n =
      size_minus-exact width n (omega (arith, short)) (omega (arith, lt)) in
    let fits : half % 2 ^ 32 ≡ half = omega (arith, lt) in
    rw (as_size-exact width lt) (
      rw free (
        rw fits (
          rw (as_size-exact half (omega (arith, lt))) (
            rw (spaces-some half (omega (arith, lt))) (
              rw (size_minus-exact (width - n) half (omega arith) (omega (arith, lt))) (
                rw (spaces-some (width - n - half) (omega (arith, lt)))
                  (rw (leb-short width n short) refl)))))))

center_text-long :
    (text : List ℕ) (width : ℕ)
    → width < 2 ^ 31
    → leb width (length text) ≡ true
    → center_text text width ≡ some (replicate 0 32 ++ text ++ replicate 0 32)
unfolding center_text
center_text-long text width lt h =
    rw (as_size-exact width lt) (rw h (ap some (sym (append-nil text))))

-- A text is centered in a width that is not negative: it is the text between spaces, as many on
-- the left as on the right or one fewer, and gets as long as the width, or stays as long as it
-- is.
pub center_text_exact :
    (text : List ℕ) (width : ℕ)
    → width < 2 ^ 31
    → (left : ℕ) × (right : ℕ) × (center_text text width
        ≡ some (replicate left 32 ++ text ++ replicate right 32))
      × (left + length text + right ≡ (if leb width (length text) then length text else width))
      × (left ≤ right)
      × (right ≤ left + 1)
center_text_exact text width lt = elim (Bool-cases (leb width (length text))) [
  | inl e ↦ (0, 0, center_text-long text width lt e, rw e (omega arith), omega arith, omega arith)
  | inr e ↦
      let short : length text < width = ground (arith, e) in
      let half = (width - length text) / 2 in
      (
        half,
        width - length text - half,
        center_text-short text width lt short,
        rw e (omega (arith, short)),
        omega arith,
        omega arith,
      )
]

-- A text is padded to a width that is not negative with as many spaces as are missing, before it
-- or behind it.
pub pad_exact :
    (str : List ℕ) (width : ℕ)
    → width < 2 ^ 31
    → (pad_left str width ≡ some (replicate (width - length str) 32 ++ str))
      × (pad_right str width ≡ some (str ++ replicate (width - length str) 32))
unfolding pad_left pad_right
pad_exact str width lt =
    let missing = width - length str in
    elim (Bool-cases (leb width (length str))) [
      | inl e ↦
          let none_missing : missing ≡ 0 = omega (arith, leb→le width (length str) e) in
          rw (as_size-exact width lt) (rw (e, none_missing) (refl, ap some (sym (append-nil str))))
      | inr e ↦
          let short : length str < width = ground (arith, e) in
          rw (as_size-exact width lt) (
            rw
              (
                e,
                size_minus-exact width (length str) (omega (arith, short)) (omega (arith, lt)),
                spaces-some missing (omega (arith, lt)),
              )
              (refl, refl))
    ]
