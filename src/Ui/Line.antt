-- ===== src/Ui/Line.antt =====
-- A line that is typed in the chat (handleChatInput of client/client_ui.cpp).
use asynchronous_messenger.Base.{string_eq}
use asynchronous_messenger.Ui.{Ui}
