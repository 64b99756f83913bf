-- ===== src/Wal.antt =====
-- yellowdb/storage/wal.py: the batch, the log files, and recovery.
pub mod Defs
pub mod Recover
pub mod Names
pub mod Replay
pub mod Log
pub mod Flushes
pub mod Refine
pub mod Writes
pub mod Closing
pub mod Settled
pub mod Bounded
pub mod Follows
pub mod Crash
