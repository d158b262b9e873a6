-- ===== src/Middleware.antt =====
-- internal/middleware/middleware.go: what stands in front of the handlers.
pub mod Keys
pub mod Cors
pub mod RateLimit
pub mod Access
mod Tests
