-- ===== src/Sharing.antt =====
-- What users share by address: links/links.service.ts and bins/bins.service.ts of apps/backend/src.
pub mod Links
pub mod Codes
pub mod Bins
pub mod Gate
pub mod Lockout
