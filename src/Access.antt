-- ===== src/Access.antt =====
-- Who may do what: principals and roles, identities and their sessions, one-time codes, the
-- administrators, and the encryption of secrets.
pub mod Principal
pub mod Phone
pub mod Sessions
pub mod Otp
pub mod Crypto
pub mod Passwords
pub mod Admin
pub mod Login
mod Tests
