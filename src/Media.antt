-- ===== src/Media.antt =====
-- Call media: src/media.rs.
pub mod Ports
pub mod Detector
pub mod Sender
pub mod Receiver
pub mod PortRange
pub mod Debounce
pub mod Packets
pub mod Aim
