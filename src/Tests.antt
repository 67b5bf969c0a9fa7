-- ===== src/Tests.antt =====
-- The theorems at concrete inputs, and tests of the definitions by evaluation.
pub mod Samples
pub mod LogLines
pub mod Counting
pub mod Spooling
pub mod Replaying
pub mod Serving
pub mod Working
pub mod Snapshots
pub mod Consuming
pub mod Dashboards
pub mod Generating
pub mod Probing
pub mod Bulk
pub mod Wiring
pub mod Processes
pub mod Histories
pub mod Pacing
pub mod Clients
