-- ===== src/Segment.antt =====
-- internal/segment: messages cut into datagrams, and put together again.
pub mod Format
pub mod Sender
pub mod ReadBuffer
pub mod Sending
pub mod Collect
pub mod Reassembly
pub mod Expiry
pub mod Faults
mod Tests
