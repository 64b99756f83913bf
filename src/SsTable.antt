-- ===== src/SsTable.antt =====
-- yellowdb/storage/sstable.py
pub mod Defs
pub mod Files
pub mod Lookup
pub mod Names
pub mod Scan
pub mod Written
