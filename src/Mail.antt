-- ===== src/Mail.antt =====
-- apps/backend/src/mail/mail.service.ts and apps/backend/src/common/mail/admin-mail-aliases.ts.
pub mod Addresses
pub mod Aliases
pub mod State
pub mod Mailbox
pub mod Reading
pub mod Listing
pub mod Actions
pub mod Senders
pub mod Incoming
pub mod Storing
pub mod RoundTrip
pub mod Quota
pub mod Owners
pub mod Isolation
pub mod SenderSteps
pub mod Steps
pub mod Folders
