-- ===== src/Proxy.antt =====
-- internal/proxy/proxy.go: the reverse proxy to the upstream API.
pub mod Headers
pub mod Url
pub mod Body
pub mod Stream
pub mod Context
pub mod Audit
pub mod Forward
pub mod Setup
pub mod Samples
mod Tests
