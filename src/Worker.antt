-- ===== src/Worker.antt =====
-- internal/worker: the worker that takes events from Kafka and indexes them.
pub mod Stats
pub mod Consume
pub mod Decode
pub mod Indexing
pub mod ReplayFiles
pub mod Replay
pub mod Delivers
pub mod Settings
pub mod Process
pub mod Wiring
