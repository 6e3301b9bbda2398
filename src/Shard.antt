-- ===== src/Shard.antt =====
-- apps/shard_01: a game shard.
pub mod Authority
pub mod Groups
pub mod Creature
pub mod Equipment
pub mod Rooms
pub mod Quests
pub mod World
pub mod RaftLog
pub mod Skills
