-- ===== src/Store.antt =====
-- internal/store/store.go: API keys with their cache.
pub mod Text
pub mod Table
pub mod Cache
pub mod Keys
pub mod Interleaved
pub mod Audit
pub mod Health
pub mod State
pub mod Opening
mod Tests
