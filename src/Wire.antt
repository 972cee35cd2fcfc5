-- ===== src/Wire.antt =====
-- The framing that Session::do_read (server/session.cpp) and ClientConnection::do_read
-- (client/client_connection.cpp) share: what arrives is appended to a buffer, and each text that a
-- newline ends is taken off it and handled, unless it is empty.
pub mod Frames
use asynchronous_messenger.Base.{
  ℕ, zero, suc, ◌+◌, Bool, true, false, Option, none, some, List, [], ◌∷◌, ◌++◌, ◌==◌, nat_eq,
  if◌then◌else◌, take, drop, length, is_empty,
}

abbrev pub newline : ℕ
newline = 10

abbrev shifted : Option ℕ → Option ℕ
shifted none = none
shifted (some i) = some (suc i)

-- buffer.find('\n'); `none` is std::string::npos
unfoldable pub find_newline : List ℕ → Option ℕ
find_newline [] = none
find_newline (c ∷ s) = if c == newline then some 0 else shifted (find_newline s)

module _ {ℓ} {S : Type ℓ} (handle : List ℕ → S → S) where
  -- if (!complete_message.empty()) handle_message(complete_message)
  unfoldable pub handle_nonempty : List ℕ → S → S
  handle_nonempty m s = if is_empty m then s else handle m s

  -- while ((pos = buffer.find('\n')) != npos) { … }, with fuel; the buffer that is left, and the
  -- state after the handlers. `none` means that the fuel ran out.
  unfoldable pub drain : ℕ → List ℕ → S → Option (List ℕ × S)
  unfolding handle_nonempty
  drain zero buffer s = none
  drain (suc fuel) buffer s = elim (find_newline buffer) [
    | none ↦ some (buffer, s)
    | some pos ↦ drain fuel (drop (suc pos) buffer) (handle_nonempty (take pos buffer) s)
  ]

  -- Appending what was read, and the loop; one round for each newline and one more are enough.
  unfoldable pub receive : List ℕ → List ℕ → S → Option (List ℕ × S)
  receive buffer chunk s = drain (length (buffer ++ chunk) + 1) (buffer ++ chunk) s
