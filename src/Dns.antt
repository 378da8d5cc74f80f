-- ===== src/Dns.antt =====
-- src/mms/dns.rs: the DNS client that asks the carrier's resolvers. A message is a list of bytes,
-- an error is a value, and the socket is a parameter.
pub mod Names
pub mod Message
pub mod Resolver
pub mod Termination
pub mod Family
pub mod Lookup
pub mod Reply
