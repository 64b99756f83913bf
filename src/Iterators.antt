-- ===== src/Iterators.antt =====
-- yellowdb/api/iterator.py
pub mod Defs
pub mod Shown
pub mod Tables
pub mod Scan
pub mod Listed
pub mod Range
pub mod Ranged
pub mod Exhaust
