-- ===== src/Harness.antt =====
-- cmd/harness: the load harness that judges the limiter by the responses that it observes.
pub mod Analysis
pub mod Client
pub mod Offer
pub mod Report
pub mod CrossCheck
pub mod Minutes
pub mod Scenarios
pub mod Verdicts
pub mod Batch
pub mod Contracts
pub mod Main
mod Tests
