-- ===== src/Spool.antt =====
-- internal/spool: the durable spool of the log API (writer.go) and its replay into Kafka
-- (replayer.go). The children define the directory, the writer and the replayer, and prove what
-- they keep.
pub mod Dir
pub mod Lines
pub mod Writer
pub mod Replayer
