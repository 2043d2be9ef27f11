-- ===== src/Runs.antt =====
-- aggregator_demo/run_repository.py: the durable optimization runs.
pub mod Status
pub mod Json
pub mod Row
pub mod Table
pub mod Repository
pub mod Claim
pub mod Create
pub mod Lifecycle
pub mod History
pub mod Listing
mod Tests
