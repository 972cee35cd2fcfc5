-- ===== src/Formatter/Lines.antt =====
-- client/message_formatter.cpp: the functions that put texts together. formatTime, which is
-- std::localtime and std::put_time, is the parameter format_time.
use asynchronous_messenger.Base.{
  ℕ, ◌^◌, String, Bool, true, false, ◌≡◌, refl, List, Option, none, some, append, blank, replicate,
  ltb, if◌then◌else◌,
}
use asynchronous_messenger.Formatter.{as_size}

-- MessageFormatter::formatUsername
unfoldable pub format_username : String → Bool → String
format_username username is_self = if is_self then "Вы" else username

-- MessageFormatter::formatChatMessage
unfoldable pub format_chat_message : (ℕ → String) → String → String → ℕ → String
unfolding format_username
format_chat_message format_time sender content timestamp =
    let time_str = format_time timestamp in
    let formatted_sender = format_username sender false in
    append "[" (append time_str (append "] " (append formatted_sender (append ": " content))))

-- MessageFormatter::formatSystemMessage
unfoldable pub format_system_message : String → String
format_system_message message = append "*** " (append message " ***")

-- MessageFormatter::formatTypingStatus
unfoldable pub format_typing_status : String → Bool → String
format_typing_status username is_typing = if is_typing then append username " печатает..." else ""

-- MessageFormatter::createSeparator, which throws where the width is negative
unfoldable pub create_separator : ℕ → ℕ → Option (List ℕ)
create_separator character width =
    if ltb (as_size width) (2 ^ 63) then some (replicate (as_size width) character) else none

-- MessageFormatter::formatPrompt
unfoldable pub format_prompt : String → String
format_prompt prompt = append prompt " > "

-- MessageFormatter::formatError
unfoldable pub format_error : String → String
format_error error = append "ОШИБКА: " error

-- MessageFormatter::formatSuccess
unfoldable pub format_success : String → String
format_success message = message

append-blank : (s t : String) → blank t ≡ false → blank (append s t) ≡ false
unfolding append blank
append-blank String.[] t h = h
append-blank (String.◌∷◌ c s) t h = refl

-- A status that is shown is never the empty text.
pub format_typing_status-blank :
    (username : String) → blank (format_typing_status username true) ≡ false
unfolding format_typing_status blank
format_typing_status-blank username = append-blank username " печатает..." refl
