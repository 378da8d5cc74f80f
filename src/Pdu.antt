-- ===== src/Pdu.antt =====
-- src/mms/pdu.rs: MMS messages, their encoding and their decoding.
pub mod Fields
pub mod Message
pub mod Encode
pub mod Decode
pub mod PartLoop
pub mod Termination
pub mod Runs
pub mod PartHeaders
pub mod Parts
pub mod FieldRuns
pub mod RoundTrip
