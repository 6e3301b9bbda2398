-- ===== src/Sbc.antt =====
-- crates/sbc_core and apps/sbc_raftd: network bans and legal holds, kept by one daemon.
pub mod Prefix
pub mod Event
pub mod Raftd
