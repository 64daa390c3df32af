-- ===== src/Policy.antt =====
-- The package internal/policy: the configuration, its validation and the resolver of limits.
pub mod Result
pub mod Config
pub mod Resolver
pub mod Customers
pub mod Overrides
pub mod Windows
pub mod Validate
pub mod Limits
pub mod Reload
pub mod Samples
mod Tests
