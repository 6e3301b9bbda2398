-- ===== src/Broker.antt =====
-- crates/slopmud: the broker that telnet clients connect to.
pub mod Wire
pub mod LineId
pub mod Scrollback
pub mod HoldCache
pub mod Throttle
