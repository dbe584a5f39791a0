-- ===== src/NasLogs.antt =====
-- scripts/nas_file_logs_core.py and the collector around it: log files of the NAS, from the bytes of
-- a snapshot to the batches that are pushed.
pub mod Snapshot
pub mod Records
pub mod State
pub mod Prepare
pub mod Collector
mod Tests
