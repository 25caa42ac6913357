-- ===== src/Reconnect.antt =====
-- transport/reconnect: a transport that connects again by itself, and its control messages.
pub mod Control
pub mod Machine
pub mod Pongs
mod Tests
