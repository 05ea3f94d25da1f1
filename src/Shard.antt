-- ===== src/Shard.antt =====
-- The shards, internal/shard.
pub mod Registry
pub mod Loop
pub mod Writers
pub mod Recover
pub mod Tests
