-- ===== src/Database.antt =====
-- yellowdb/api/database.py
pub mod State
pub mod Stored
pub mod Source
pub mod Flush
pub mod Compaction
pub mod Write
pub mod Read
pub mod Open
pub mod Close
pub mod Closed
pub mod SourceLaws
pub mod Inversion
pub mod Keeps
pub mod View
pub mod ReadWrite
pub mod Logging
pub mod Recovery
pub mod Sessions
pub mod Unlogged
pub mod Reopen
pub mod Crash
pub mod Timestamps
