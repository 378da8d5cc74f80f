-- ===== src/Core.antt =====
-- The SIP element: src/sip/core.rs.
pub mod Transactions
pub mod Nonces
pub mod Timers
pub mod Schedule
pub mod PendingAcks
pub mod State
pub mod Respond
pub mod Authenticate
pub mod Requests
pub mod Clients
pub mod Handled
pub mod Twice
pub mod Accepted
pub mod Refused
pub mod Delivered
pub mod Contacts
pub mod OneTimer
pub mod Addresses
pub mod ExactlyOnce
pub mod Replay
pub mod NoReplay
