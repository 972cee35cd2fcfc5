-- ===== src/Programs.antt =====
-- The `main` functions: server/server.cpp, client/client.cpp and the two manual test programs of the
-- client.
pub mod Port
pub mod ServerMain
pub mod SimpleTest
pub mod ClientMain
pub mod DebugTest
