-- ===== src/Ui/Conversation.antt =====
-- A chat message from one client's request to the other's screen: client/client_state_machine.cpp,
-- server/json_parser.cpp, server/router.cpp, client/message_receiver.cpp and client/client_ui.cpp.
use asynchronous_messenger.Base.{string_eq, List}
use asynchronous_messenger.Env.{Env}
use asynchronous_messenger.Ui.{Ui}
