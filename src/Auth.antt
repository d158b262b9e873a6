-- ===== src/Auth.antt =====
-- internal/auth/auth.go: the credentials of the upstream account, their choice, refresh and reload.
pub mod Entry
pub mod Select
pub mod Manager
pub mod Refresh
pub mod Token
pub mod Consistency
pub mod Lifetime
pub mod File
pub mod Watch
pub mod Proactive
pub mod Samples
mod Tests
