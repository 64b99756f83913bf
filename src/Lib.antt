-- ===== src/Lib.antt =====
-- YellowDB, an embedded key-value store in Python with the architecture of a log-structured merge
-- tree (yellowdb/). A write goes to the write-ahead log, then to the memtable and the cache; full
-- memtables are flushed to sorted tables on disk, which a compactor merges level by level; a read
-- asks the cache, the memtable and the tables in turn. At the start the log is replayed.
--
-- Which file models which part:
--   Config       yellowdb/utils/config.py: `Config`; `Singleton` is the class attribute `_instance`.
--   Errors       yellowdb/utils/exceptions.py, results, and `except Exception as e: raise X from e`.
--   Text         Python's str and bytes: the order of strings, strict UTF-8, decimal numbers.
--   Dict, Items  Python's dict with string keys, and l[i].
--   Serializer   yellowdb/core/serializer.py. `Write` is serialize_record, `Deserialize` is
--                deserialize_record, `Read` is read_record_from_file, `KeyCache` the class-level
--                cache of encoded keys, `File` write_record_to_file. `record_bytes` of `Write` is
--                serialize_record without the key cache.
--   Memtable     yellowdb/storage/memtable.py. `Table` is Memtable, `Concurrent` is
--                ConcurrentMemtables, `BufferPool` is BufferPool.
--   Cache        yellowdb/cache/write_through.py.
--   Bloom        yellowdb/core/bloom_filter.py.
--   Wal          yellowdb/storage/wal.py. `Defs` has WALBatch and WAL, `Recover` has recover,
--                `Names` the names of the files. `Crash` is about the part of the files that is left
--                when the machine stops.
--   Index        yellowdb/storage/index.py. `Defs` is SparseIndex, `Keys` is `in` and `sort` on
--                lists of keys.
--   SsTable      yellowdb/storage/sstable.py. `Defs` is SSTable with write_record, get and scan_all,
--                `Files` has finalize, delete, loading and range_query. `Index.Files` is save and
--                load of the index. `Names` has create_filename.
--   Compactor    yellowdb/compaction/compactor.py. `Level` is Level, `Merge` the dictionary of
--                compact_levels, `Defs` is Compactor.
--   Database     yellowdb/api/database.py. `Source` is self.memtable, one memtable or several;
--                `State` the attributes and validation; `Flush`, `Compaction`, `Write`, `Read`,
--                `Open` and `Close` the methods, `Write` set and delete, `Read` get. `Sessions`,
--                `Reopen`, `Crash` and `Timestamps` are about sequences of calls.
--   Iterators    yellowdb/api/iterator.py: both loads, and the cursor that the classes share.
--   Batch        yellowdb/api/batch.py.
--   Examples     examples/session_store.py (`SessionStore`, `SessionScans`) and
--                examples/cache_layer.py (`CacheLayer`, `CacheScans`), over the interface `Store`,
--                which `Backing` fills with a database.
--   Actions      methods of a mutable object that may raise, in sequence.
--   Platform     what the database is given: packages, configuration, files of an earlier run.
--   Tests        runs at concrete inputs, and each result applied to one.
--
-- A method is a function from the old state to the new one. A method that can raise after it has
-- changed something returns its state beside the exception; one that raises before it changes
-- anything returns the new state or the exception.
--
-- Parameters, because their code is not in the repository: zlib (`Serializer.Defs.Zlib`, with the
-- law that decompression undoes compression), sortedcontainers.SortedDict
-- (`Memtable.SortedDict`, with what its documentation says of items, lookup and irange; `plain`
-- meets it), struct.Struct, Python's hash of a string, the MD5 digest (with no law), and json and
-- datetime (`Examples.Environment`, with the laws that reading undoes writing). The readings of the
-- clock are arguments of the calls, in microseconds. The numbers of tables start from 0 in every run, and
-- a table is written behind what a file of its name holds already: `Platform.old_file`. Within a
-- run no name is used twice, so that deleting the files of merged tables changes no later table.
--
-- Bounds and fuel: byte strings are decoded, and log files read, with their length as fuel, since
-- each round takes at least one byte. The binary search of the index runs on one round more than
-- there are keys, since each round shrinks the range. A log file is known by its number, and
-- numbers stay below 1,000,000. The range query of a table reads with the length of the file as
-- fuel, too. A number is printed in as many rounds as its value, and takes fewer.
-- A crash keeps of each log file at least the length that an fsync has put on the disk, and the
-- bytes behind it up to any point.
--
-- Not modelled: locks and threads (a method is one step), I/O errors of the disk, floating point,
-- messages and representations, logging, the text of the JSON files (the index file is the object
-- that it holds), and the parts of the files under examples/ that demonstrate the two classes.
pub mod Prelude
pub mod Errors
pub mod Config
pub mod Text
pub mod Dict
pub mod Actions
pub mod Items
pub mod Serializer
pub mod Memtable
pub mod Cache
pub mod Bloom
pub mod Wal
pub mod Index
pub mod SsTable
pub mod Platform
pub mod Compactor
pub mod Database
pub mod Iterators
pub mod Batch
pub mod Examples
mod Tests
