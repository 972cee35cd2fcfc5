-- ===== src/Tests.antt =====
-- Concrete inputs, and the theorems of the other modules applied at them.
mod Data
mod Codec
mod Accounts
mod Messages
mod Frames
mod Logins
mod Delivery
mod Events
mod Clients
mod Texts
mod Chats
mod Interface
mod Programs
