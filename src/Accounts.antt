-- ===== src/Accounts.antt =====
-- User accounts: users/users.service.ts and auth/ of apps/backend/src.
pub mod State
pub mod Users
pub mod Lifecycle
pub mod Secrets
pub mod AdminContent
pub mod AdminUsers
pub mod Auth
pub mod Credentials
pub mod Rows
pub mod Machine
pub mod Refinement
pub mod Operations
pub mod Requests
pub mod Sessions
pub mod Tokens
pub mod Rotation
pub mod Revocation
pub mod AuthSteps
pub mod CredentialSteps
pub mod AdminSteps
pub mod AdminRuns
pub mod Steps
pub mod Cleared
pub mod Recovery
pub mod Deletion
pub mod Registration
