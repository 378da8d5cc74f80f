-- ===== src/Sip.antt =====
-- src/sip/message.rs: SIP messages, their headers, their parsing and their serialisation.
pub mod Method
pub mod Headers
pub mod Via
pub mod Message
pub mod Encode
pub mod HeaderMap
pub mod Reply
pub mod Lines
pub mod Wire
pub mod WireBytes
pub mod Sent
pub mod RoundTrip
pub mod RequestTrip
