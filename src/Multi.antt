-- ===== src/Multi.antt =====
-- transport/multi: several transports behind one, and the selectors that choose among them.
pub mod Transports
pub mod Available
pub mod Info
pub mod Stats
pub mod RoundRobin
pub mod MinRtt
pub mod ByteBalanced
pub mod Ecf
mod Tests
