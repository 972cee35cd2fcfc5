-- ===== src/Wire/Frames.antt =====
-- The loop of Session::do_read (server/session.cpp), by a plain recursion on the bytes.
use mathlib.Core.List.{foldl-append}
use asynchronous_messenger.Base.{
  ℕ, zero, suc, ◌<◌, ◌≡◌, refl, ap, ◌∙◌, sym, Bool, false, none, some, List, [], ◌∷◌, ◌++◌, foldl,
  append_assoc, ◌==◌, nat_eq, if◌then◌else◌, take, drop, length, ◌>>=◌, ◌||◌, length-drop, arith,
  Bool-cases, Option-cases, inl, inr,
}
use asynchronous_messenger.Wire.{newline, find_newline, drain, receive, handle_nonempty}

-- A byte before the first text.
abbrev before_first : ℕ → List (List ℕ) × List ℕ → List (List ℕ) × List ℕ
before_first c ([], rest) = ([], c ∷ rest)
before_first c (m ∷ ms, rest) = ((c ∷ m) ∷ ms, rest)

-- The texts that a newline ends, and the rest.
unfoldable pub split : List ℕ → List (List ℕ) × List ℕ
split [] = ([], [])
split (c ∷ s) = let r = split s in if c == newline then ([] ∷ r.0, r.1) else before_first c r

split-none : (s : List ℕ) → find_newline s ≡ none → split s ≡ ([], s)
unfolding split find_newline
split-none [] h = refl
split-none (c ∷ s) h = ground (arith, split-none s)

-- The first text and what follows its newline.
first_then : List ℕ → List (List ℕ) × List ℕ → List (List ℕ) × List ℕ
first_then m r = (m ∷ r.0, r.1)

split-some :
    (s : List ℕ) (i : ℕ)
    → find_newline s ≡ some i
    → split s ≡ first_then (take i s) (split (drop (suc i) s))
unfolding split find_newline first_then
split-some [] i h = ground arith
split-some (c ∷ s) zero h = ground arith
split-some (c ∷ s) (suc i) h = ground (arith, split-some s i)

find_newline-lt : (s : List ℕ) (i : ℕ) → find_newline s ≡ some i → i < length s
unfolding find_newline
find_newline-lt [] i h = ground arith
find_newline-lt (c ∷ s) zero h = omega arith
find_newline-lt (c ∷ s) (suc i) h = ground (arith, find_newline-lt s i)

before_first-append :
    (c : ℕ) (b : List ℕ) (r : List (List ℕ) × List ℕ)
    → (c == newline) ≡ false
    → before_first c (r.0 ++ (split (r.1 ++ b)).0, (split (r.1 ++ b)).1) ≡ (
      (before_first c r).0 ++ (split ((before_first c r).1 ++ b)).0,
      (split ((before_first c r).1 ++ b)).1,
    )
unfolding split
before_first-append c b ([], rest) e = rw e refl
before_first-append c b (m ∷ ms, rest) e = refl

pub split-append :
    (a b : List ℕ)
    → split (a ++ b) ≡ ((split a).0 ++ (split ((split a).1 ++ b)).0, (split ((split a).1 ++ b)).1)
unfolding split first_then
split-append [] b = refl
split-append (c ∷ a) b = elim (Bool-cases (c == newline)) [
  | inl e ↦ rw e (ap (first_then []) (split-append a b))
  | inr e ↦ rw e (ap (before_first c) (split-append a b) ∙ before_first-append c b (split a) e)
]

module _ {ℓ} {S : Type ℓ} (handle : List ℕ → S → S) where
  -- The handlers of some texts, in their order.
  abbrev pub handle_all : S → List (List ℕ) → S
  handle_all = foldl (λ s m. handle_nonempty handle m s)

  -- What the loop is to do.
  abbrev pub handled : List ℕ → S → List ℕ × S
  handled bytes s = ((split bytes).1, handle_all s (split bytes).0)

  drain-handled :
      (fuel : ℕ) (buffer : List ℕ) (s : S)
      → length buffer < fuel
      → drain handle fuel buffer s ≡ some (handled buffer s)
  unfolding drain first_then
  drain-handled zero b s lt = elim lt [ ]
  drain-handled (suc fuel) b s lt = elim (Option-cases (find_newline b)) [
    | inl e ↦ rw (e, drain, split-none b e) refl
    | inr (i, e) ↦
        rw (e, drain, split-some b i e)
          (drain-handled fuel (drop (suc i) b) _
            (omega (arith, length-drop (suc i) b, find_newline-lt b i e)))
  ]

  -- The loop of a read always ends, within its fuel: it handles exactly the non-empty texts
  -- that a newline ends in the buffer with the bytes behind it, in order, and keeps the rest in
  -- the buffer.
  pub receive_total :
      (buffer chunk : List ℕ) (s : S)
      → receive handle buffer chunk s ≡ some (handled (buffer ++ chunk) s)
  unfolding receive
  receive_total b c s = drain-handled _ (b ++ c) s (omega arith)

  pub handled-append :
      (a d : List ℕ) (s : S)
      → handled (a ++ d) s ≡ handled ((split a).1 ++ d) (handle_all s (split a).0)
  handled-append a d s = rw (split-append a d) (rw foldl-append refl)

  -- How the bytes were cut into reads makes no difference: reading c and then d handles the
  -- same texts in the same order, and leaves the same buffer, as reading both at once.
  pub receive-append :
      (buffer c d : List ℕ) (s : S)
      → (receive handle buffer c s >>= λ (r : List ℕ × S). receive handle r.0 d r.1)
        ≡ receive handle buffer (c ++ d) s
  receive-append b c d s = rw (receive_total b c s) (
      receive_total (split (b ++ c)).1 d _
      ∙ ap some (sym (handled-append (b ++ c) d s))
      ∙ rw (append_assoc b c d) (sym (receive_total b (c ++ d) s)))

-- `send` writes each text with a newline behind it.
abbrev pub lines : List (List ℕ) → List ℕ
lines [] = []
lines (m ∷ ms) = m ++ newline ∷ lines ms

abbrev pub has_newline : List ℕ → Bool
has_newline [] = false
has_newline (c ∷ s) = c == newline || has_newline s

abbrev pub AllWhole : List (List ℕ) → Type 0
AllWhole [] = Unit {0}
AllWhole (m ∷ ms) = (has_newline m ≡ false) × AllWhole ms

split-line :
    (m rest : List ℕ)
    → has_newline m ≡ false
    → split (m ++ newline ∷ rest) ≡ first_then m (split rest)
unfolding split first_then
split-line [] rest h = refl
split-line (c ∷ m) rest h = ground (arith, split-line m rest)

-- Texts without newlines that are sent as lines are what the other side takes off its buffer.
pub split-lines : (ms : List (List ℕ)) → AllWhole ms → split (lines ms) ≡ (ms, [])
unfolding split first_then
split-lines [] h = refl
split-lines (m ∷ ms) h = split-line m (lines ms) h.0 ∙ ap (first_then m) (split-lines ms h.1)

pub receive-lines {ℓ} :
    {S : Type ℓ} (handle : List ℕ → S → S) (ms : List (List ℕ)) (s : S)
    → AllWhole ms
    → receive handle [] (lines ms) s ≡ some ([], handle_all handle s ms)
receive-lines handle ms s h = receive_total handle [] (lines ms) s ∙ rw (split-lines ms h)

-- What each handler keeps, the handlers of a read keep.
pub handle_all_keeps {ℓ κ} :
    {S : Type ℓ} (P : S → Type κ) (handle : List ℕ → S → S)
    → ((m : List ℕ) (s : S) → P s → P (handle m s))
    → (s : S) (ms : List (List ℕ)) → P s
    → P (handle_all handle s ms)
unfolding handle_nonempty
handle_all_keeps P handle keep s [] h = h
handle_all_keeps P handle keep s ([] ∷ ms) h = handle_all_keeps P handle keep s ms h
handle_all_keeps P handle keep s ((c ∷ m) ∷ ms) h =
    handle_all_keeps P handle keep (handle (c ∷ m) s) ms (keep (c ∷ m) s h)
