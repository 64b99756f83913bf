-- ===== src/Bloom.antt =====
-- yellowdb/core/bloom_filter.py
pub mod Bits
pub mod Defs
pub mod Laws
pub mod Membership
