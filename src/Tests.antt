-- ===== src/Tests.antt =====
-- Concrete runs, and the theorems at concrete inputs.
mod Wsp
mod Pdu
mod Number
mod Dns
mod Sip
mod Codec
mod Push
mod Sdp
mod Core
mod Auth
mod Media
mod Message
