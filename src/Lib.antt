-- ===== src/Lib.antt =====
-- asynchronous_messenger: a chat server (server/) and its console client (client/) that speak
-- JSON, one object to a line, over TCP.
--
-- The server is one thread that runs callbacks. A Session reads bytes, cuts them at newlines and
-- passes each line to the JsonParser, which checks the login and the members of the request and
-- calls the UserManager (accounts, and who is logged in from which session) or the Router
-- (messages and typing status from user to user); both stand on the Database, two SQLite tables.
-- The client has a ClientStateMachine, whose actions write requests through the ClientConnection,
-- and a MessageReceiver, which takes what the connection reads, changes the state and tells the
-- user interface. A Client has the states of the three; the calls of its two threads are taken
-- one after the other. The ClientUI shows menus, reads keys in a chat, and is called back by the
-- receiver; a Ui has its state and the Client behind it, and its threads take turns.
--
-- Base           shared names, tests, lists, texts as C strings, and std::map as an association list
-- Json           nlohmann::json, a parameter of the model; Json/Sample is an instance of it
-- Env            SQL rows and statements, and what SQLite and the clock decide
-- Database       server/database.cpp, each method a function on the two tables
-- Wire           the loop of Session::do_read in server/session.cpp (and of client/client_connection.cpp)
-- UserManager    server/user_manager.cpp
-- Session        server/session.cpp: send, setAuthenticated, close
-- Router         server/router.cpp
-- JsonParser     server/json_parser.cpp: handleRegister is handle_register, and so on
-- Server         server/server.cpp and the callbacks of Session, as a step function on events
-- Server/Answers   the messages that answer requests, counted over all that the server does
-- Server/Composed, Server/Sending   the four forms of what the server sends
-- Client/Understanding   what a client makes of them
-- Server/Mailbox    mailboxes as bags of messages, and the router's calls that carry messages
-- Client         the objects of client/client.cpp, in one record, and the states
-- Client/Receiver    client/message_receiver.cpp
-- Client/Connection  client/client_connection.cpp
-- Client/Machine     client/client_state_machine.cpp, and act, a step function on the user's actions
--                and on what happens to the connection
-- Formatter      client/message_formatter.cpp: padLeft, padRight, centerText on bytes
-- Formatter/Lines    client/message_formatter.cpp: the functions that put texts together
-- Ui             client/client_ui.cpp: the state of ClientUI and what it shows
-- Ui/Screen      the displays and the callbacks; call is a call of the client's objects with the
--                callbacks that it leads to
-- Ui/Chat        the chat mode, its threads, handleChatInput and shutdown
-- Ui/Menus       handleUserInput, as two steps, up to the prompt and from the answers on
-- Ui/Steps       the turns of the threads, as a step function on events
-- Programs       the main functions: Port and ServerMain (server/server.cpp, from the command line
--                to the callbacks), ClientMain (client/client.cpp), SimpleTest
--                (client/simple_test_client.cpp, run against the server) and DebugTest
--                (client/debug_test.cpp)
-- History        client/local_history_store.cpp
-- Ui/Conversation, Ui/Chain, Ui/Typing  messages and typing status through both programs
-- Tests          concrete inputs, and the theorems applied at them
--
-- State is passed explicitly. A World has the database, the UserManager, the sessions by number
-- and the number of the next one; a shared pointer to a session is its number, so all of its
-- users see its changes. An int is its 32-bit pattern, a row id is SQLite's 64-bit id. A C++
-- exception is `none`, taken by the catch block of the handler that the source has. Texts are
-- read as far as their first NUL wherever the source passes c_str() to SQLite.
--
-- The loop that cuts lines (Wire.drain) runs on fuel, one round for each byte of the buffer and
-- one more, since each round takes a byte off the buffer at least. Everything else is structural.
--
-- The number of a port goes through int, short and unsigned short: the first is an integer, which
-- std::atoi leaves undefined out of range, the others keep the low 16 bits. A program that ends
-- by an exception, returns or goes on has a value for each.
--
-- Parameters stand for what is not in the repository: nlohmann::json (JsonLib, with the laws
-- JsonLaws, and RoundTrips of Client.Transport for its serialization), std::hash, for each event
-- of the server an Env: whether SQLite prepares and steps each statement, the order of rows with
-- equal times, and the clock; for each action of a client a Net: whether a connection and a write
-- succeed, and for the user interface formatTime, the clock and what is typed. Theorems that need
-- SQLite to work say so by IsHealthy, those that need a serializable message by Serializes.
--
-- Not modelled: log output, the ordering of the writes of one session on the socket (the model
-- keeps the messages in the order in which they are passed to async_write), foreign keys, which
-- SQLite does not enforce by default, and the branches of client/client_ui.cpp for Windows, the
-- settings of the terminal and the sleeps.
pub mod Base
pub mod Json
pub mod Env
pub mod Database
pub mod Wire
pub mod UserManager
pub mod Session
pub mod Router
pub mod JsonParser
pub mod Server
pub mod Client
pub mod Formatter
pub mod Ui
pub mod Programs
pub mod History
pub mod Tests
