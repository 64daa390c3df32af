-- ===== src/Ratelimit.antt =====
-- The package internal/ratelimit: the GCRA core, the striped store and the limiter over both.
pub mod Gcra
pub mod Store
pub mod Limiter
mod Tests
