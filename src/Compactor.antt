-- ===== src/Compactor.antt =====
-- yellowdb/compaction/compactor.py
pub mod Kept
pub mod Level
pub mod Merge
pub mod Defs
pub mod Versions
pub mod Newest
pub mod Compacted
pub mod Selection
pub mod Stored
