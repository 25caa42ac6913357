-- ===== src/Conn.antt =====
-- iscp/conn.go: the connection of a client.
pub mod Lifecycle
pub mod Streams
pub mod Calls
mod Tests
