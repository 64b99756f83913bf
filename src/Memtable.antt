-- ===== src/Memtable.antt =====
-- yellowdb/storage/memtable.py: the sorted write buffer, its sharded form and the buffer pool.
pub mod SortedDict
pub mod Sorted
pub mod Table
pub mod Laws
pub mod Range
pub mod Concurrent
pub mod Shards
pub mod Views
pub mod Union
pub mod BufferPool
pub mod Fresh
