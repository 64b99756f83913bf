-- ===== src/Cache.antt =====
-- yellowdb/cache/write_through.py: `WriteThroughCache`. The `OrderedDict` is a list of pairs, the
-- least recently used first.
pub mod Laws
pub mod Defs
pub mod Queue
pub mod Reads
