-- ===== src/Message.antt =====
-- The text forms of messages' parts.
pub mod Filters
mod Tests
