-- ===== src/Identity.antt =====
-- backend/src/spidey/identity: roles, users, refresh tokens, the lockout and authentication.
pub mod Roles
pub mod Users
pub mod Lockout
pub mod Auth
pub mod Admin
