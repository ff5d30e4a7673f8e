-- ===== src/Guards.antt =====
-- The guards of apps/backend/src that run before a handler and keep state in Redis.
pub mod Rules
pub mod ChunkLock
pub mod Attempts
pub mod Exclusion
