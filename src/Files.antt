-- ===== src/Files.antt =====
-- apps/backend/src/files/files.service.ts: sizes, quotas, the upload state machine in Redis and
-- object storage, downloads and deletion. The children hold the parts.
pub mod Limits
pub mod State
pub mod Steps
pub mod Active
pub mod Upload
pub mod Chunks
pub mod Downloads
pub mod Reads
pub mod Quota
pub mod Progress
pub mod Whole
pub mod Cancel
pub mod Apart
pub mod Started
pub mod Cleanup
