-- ===== src/Wsp.antt =====
-- src/mms/wsp.rs: the WSP primitives under the MMS encapsulation.
pub mod Tables
pub mod Env
pub mod Reader
pub mod Values
pub mod Writer
pub mod At
pub mod Uintvar
pub mod Integers
pub mod Strings
pub mod Bounds
pub mod Progress
pub mod Parameters
pub mod ContentTypes
