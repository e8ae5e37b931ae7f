-- ===== src/Auth.antt =====
-- src/services/auth.service.js with its validators, its tokens and the mail of a verification.
pub mod Credentials
pub mod Tokens
pub mod Mail
pub mod Accounts
pub mod Profile
pub mod Verifying
pub mod Revocation
pub mod Sessions
pub mod Verification
