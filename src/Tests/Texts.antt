-- ===== src/Tests/Texts.antt =====
-- Texts on the console (client/message_formatter.cpp).
use asynchronous_messenger.Base.{ℕ, ◌+◌, ◌≤◌, ◌≡◌, ◌++◌, some, [], ◌∷◌, replicate, arith}
use asynchronous_messenger.Formatter.{center_text, center_text_exact}

center_text_exact_example :
    (left : ℕ) × (right : ℕ) × (center_text (65 ∷ 66 ∷ []) 5
      ≡ some (replicate left 32 ++ (65 ∷ 66 ∷ []) ++ replicate right 32))
    × (left + 2 + right ≡ 5)
    × (left ≤ right)
    × (right ≤ left + 1)
center_text_exact_example = center_text_exact (65 ∷ 66 ∷ []) 5 (omega arith)
