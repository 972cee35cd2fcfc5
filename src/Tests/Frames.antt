-- ===== src/Tests/Frames.antt =====
-- Texts on a connection (server/session.cpp).
use asynchronous_messenger.Base.{ℕ, ◌≡◌, some, List, [], ◌∷◌, ◌>>=◌}
use asynchronous_messenger.Wire.{receive, newline}
use asynchronous_messenger.Wire.Frames.{handled, receive_total, receive-append}

-- The handler that records the texts, the last one first.
abbrev recorded : List ℕ → List (List ℕ) → List (List ℕ)
recorded m s = m ∷ s

receive_total_example :
    receive recorded (65 ∷ []) (66 ∷ newline ∷ 67 ∷ []) []
    ≡ some (handled recorded (65 ∷ 66 ∷ newline ∷ 67 ∷ []) [])
receive_total_example = receive_total recorded (65 ∷ []) (66 ∷ newline ∷ 67 ∷ []) []

receive-append_example :
    (receive recorded [] (65 ∷ []) [] >>= λ (r : List ℕ × List (List ℕ)).
    receive recorded r.0 (66 ∷ newline ∷ []) r.1)
    ≡ receive recorded [] (65 ∷ 66 ∷ newline ∷ []) []
receive-append_example = receive-append recorded [] (65 ∷ []) (66 ∷ newline ∷ []) []
