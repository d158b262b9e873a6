-- ===== src/Auth/Tests.antt =====
-- Runs of the credentials manager and the theorems on them.
pub mod Selection
pub mod Refreshing
