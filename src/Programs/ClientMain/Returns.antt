-- ===== src/Programs/ClientMain/Returns.antt =====
-- How main of client/client.cpp ends.
use asynchronous_messenger.Base.{string_eq}
use asynchronous_messenger.Ui.{Ui}
