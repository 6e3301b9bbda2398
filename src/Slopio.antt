-- ===== src/Slopio.antt =====
-- crates/slopio: telnet command stripping, line reading and length-prefixed frames.
pub mod Stream
pub mod Telnet
pub mod Line
pub mod Frame
