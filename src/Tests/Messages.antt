-- ===== src/Tests/Messages.antt =====
-- The messages table (server/database.cpp).
use asynchronous_messenger.Base.{nat_eq}
