-- ===== src/Config.antt =====
-- yellowdb/utils/config.py: the parameters, their defaults, the setters and the singleton.
use Prim.Native.String.{String}
use text.Mathlib.Text.{◌==◌}
use yellowdb.Prelude.{
  ℕ, zero, suc, ◌*◌, Bool, true, false, ◌||◌, Option, none, some, List, [], ◌∷◌, if◌then◌else◌,
}
use yellowdb.Prelude.Int.{ℤ, pos, negsuc}
use yellowdb.Errors.{Result, ok, raise, value_error}

pub record Config : Type 0 where
  pub data_directory : String
  pub enable_read_only_mode : Bool
  pub log_level : String
  pub memtable_size : ℕ
  pub concurrent_memtable_count : ℕ
  pub enable_concurrent_memtables : Bool
  pub write_buffer_size : ℕ
  pub sstable_size : ℕ
  pub block_size : ℕ
  pub sparse_index_interval : ℕ
  pub cache_size : ℕ
  pub enable_cache : Bool
  pub bloom_filter_size : ℕ
  pub bloom_filter_hash_functions : ℕ
  pub enable_bloom_filter : Bool
  pub compression_threshold : ℕ
  pub compression_level : ℕ
  pub enable_compression : Bool
  pub compaction_strategy : String
  pub compaction_threshold : ℕ
  pub lazy_compaction : Bool
  pub max_concurrent_compactions : ℕ
  pub wal_batch_size : ℕ
  pub wal_sync_interval : ℕ
  pub sync_wal : Bool

abbrev pub defaults : Config
defaults = record {
  data_directory = "./yellowdb_data";
  enable_read_only_mode = false;
  log_level = "INFO";
  memtable_size = 64 * 1024 * 1024;
  concurrent_memtable_count = 4;
  enable_concurrent_memtables = true;
  write_buffer_size = 256 * 1024 * 1024;
  sstable_size = 128 * 1024 * 1024;
  block_size = 4096;
  sparse_index_interval = 32;
  cache_size = 512 * 1024 * 1024;
  enable_cache = true;
  bloom_filter_size = 100000;
  bloom_filter_hash_functions = 3;
  enable_bloom_filter = true;
  compression_threshold = 10 * 1024;
  compression_level = 6;
  enable_compression = true;
  compaction_strategy = "tiered";
  compaction_threshold = 4;
  lazy_compaction = true;
  max_concurrent_compactions = 2;
  wal_batch_size = 100;
  wal_sync_interval = 1024 * 1024;
  sync_wal = false;
}

-- The class attribute `_instance`. `Config()` gives the object that is there, and otherwise makes
-- one with the defaults.
abbrev pub Singleton : Type 0
Singleton = Option Config

unfoldable pub instance_of : Singleton → Config × Singleton
instance_of (some c) = (c, some c)
instance_of none = (defaults, some defaults)

unfoldable pub reset : Singleton → Singleton
reset s = none

unfoldable pub set_data_directory : String → Config → Config
set_data_directory path c = record c { data_directory = path }

unfoldable pub set_log_level : String → Config → Result Config
set_log_level level c =
    if level == "DEBUG"
      || level == "INFO"
      || level == "WARNING"
      || level == "ERROR"
      || level == "CRITICAL"
    then ok (record c { log_level = level })
    else raise value_error

unfoldable pub set_memtable_size : ℤ → Config → Result Config
set_memtable_size (pos (suc n)) c = ok (record c { memtable_size = suc n })
set_memtable_size (pos zero) c = raise value_error
set_memtable_size (negsuc n) c = raise value_error

unfoldable pub set_sstable_size : ℤ → Config → Result Config
set_sstable_size (pos (suc n)) c = ok (record c { sstable_size = suc n })
set_sstable_size (pos zero) c = raise value_error
set_sstable_size (negsuc n) c = raise value_error

unfoldable pub set_cache_size : ℤ → Config → Result Config
set_cache_size (pos n) c = ok (record c { cache_size = n })
set_cache_size (negsuc n) c = raise value_error

unfoldable pub set_compression_threshold : ℤ → Config → Result Config
set_compression_threshold (pos n) c = ok (record c { compression_threshold = n })
set_compression_threshold (negsuc n) c = raise value_error

unfoldable pub enable_sync_wal : Bool → Config → Config
enable_sync_wal enabled c = record c { sync_wal = enabled }

-- `compaction_strategy == "tiered"`
unfoldable pub is_tiered : Config → Bool
is_tiered config = config.compaction_strategy == "tiered"

-- the values of the dictionary that `to_dict` returns
pub data Value : Type 0 where
  words : String → Value
  number : ℕ → Value
  flag : Bool → Value

-- `path_text s` is `str(Path(s))`.
unfoldable pub to_dict : (String → String) → Config → List (String × Value)
to_dict path_text c =
    ("data_directory", words (path_text c.data_directory))
    ∷ ("log_level", words c.log_level)
    ∷ ("memtable_size", number c.memtable_size)
    ∷ ("enable_concurrent_memtables", flag c.enable_concurrent_memtables)
    ∷ ("write_buffer_size", number c.write_buffer_size)
    ∷ ("sstable_size", number c.sstable_size)
    ∷ ("block_size", number c.block_size)
    ∷ ("sparse_index_interval", number c.sparse_index_interval)
    ∷ ("cache_size", number c.cache_size)
    ∷ ("enable_cache", flag c.enable_cache)
    ∷ ("bloom_filter_size", number c.bloom_filter_size)
    ∷ ("enable_bloom_filter", flag c.enable_bloom_filter)
    ∷ ("compression_threshold", number c.compression_threshold)
    ∷ ("compression_level", number c.compression_level)
    ∷ ("enable_compression", flag c.enable_compression)
    ∷ ("compaction_strategy", words c.compaction_strategy)
    ∷ ("compaction_threshold", number c.compaction_threshold)
    ∷ ("lazy_compaction", flag c.lazy_compaction)
    ∷ ("wal_batch_size", number c.wal_batch_size)
    ∷ ("wal_sync_interval", number c.wal_sync_interval)
    ∷ ("sync_wal", flag c.sync_wal)
    ∷ []
