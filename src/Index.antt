-- ===== src/Index.antt =====
-- yellowdb/storage/index.py
pub mod Keys
pub mod Defs
pub mod Laws
pub mod Search
pub mod Lookup
pub mod Range
pub mod Complete
pub mod Files
