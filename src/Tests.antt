-- ===== src/Tests.antt =====
-- The theorems at concrete inputs, with servers and tables in memory.
mod Limits
mod Addresses
mod Uploads
mod Starts
mod Sessions
mod Deletions
mod Sharing
mod Mailbox
mod Guards
mod Administration
