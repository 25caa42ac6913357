-- ===== src/Convert.antt =====
-- encoding/convert: messages and their protobuf form.
pub mod Outcome
pub mod Codes
pub mod Messages
pub mod Autogen
pub mod Outside
pub mod ToProto
pub mod ToWire
pub mod RoundTrip
pub mod Crossing
pub mod Reading
pub mod Errors
mod Tests
