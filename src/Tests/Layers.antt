-- ===== src/Tests/Layers.antt =====
-- The cache layer at concrete calls.
use yellowdb.Prelude.{◌+◌, ◌≡◌, refl, none, some, [], ◌∷◌}
use yellowdb.Errors.{ok}
use yellowdb.Text.{Key}
use yellowdb.Text.Utf8.{encode, encode_char}
use yellowdb.Text.Order.{key_eq}
use yellowdb.Dict.{lookup, insert}
use yellowdb.Actions.{continue, ◌>>=◌}
use yellowdb.Serializer.KeyCache.{encode_key, get_cached_key_bytes}
use yellowdb.Serializer.Struct.{pack}
use yellowdb.Serializer.Write.{serialize_record, compress_value}
use yellowdb.Memtable.Sorted.{insert_sorted}
use yellowdb.Memtable.Table
use yellowdb.Memtable.Table.{MemtableEntry}
use yellowdb.Cache.Defs as Cache
use yellowdb.Wal.Defs as Wal
use yellowdb.Wal.Defs.{WalFile}
use yellowdb.Wal.Recover.{recover, read_files}
use yellowdb.Database.Source
use yellowdb.Database.State.{check_open, validate_key, validate_value, get_timestamp}
use yellowdb.Database.Write.{
  set, write_wal, change_memtable, store_memtable, put_in, put_cache, count_set, flush_when_full,
  compact_when_due,
}
use yellowdb.Database.Read.{get}
use yellowdb.Database.Open.{open_database, replay}
use yellowdb.Tests.Databases.{clock}
use yellowdb.Database.Read.{ask_cache, ask, end_ask, answer, count_miss, count_get}
use yellowdb.Compactor.Defs as Compactor
use yellowdb.Tests.Environment.{environment}
use yellowdb.Tests.Clients.{store, empty_database}
use yellowdb.Examples.CacheLayer as Layer
use yellowdb.Examples.CacheLayer.{CacheLayer, SetTimes, on_db, metadata, ttl_or}
use yellowdb.Examples.Requests.{requests-get}
use yellowdb.Batch.{apply, commit, exit}

abbrev first_layer : CacheLayer environment store 60
first_layer = Layer.new environment store 60 empty_database

abbrev times : SetTimes
times = record { created = 100; expiry_base = 100; first = clock; second = clock }

abbrev key : Key
key = 107 ∷ []

abbrev seven : environment.Json
seven = environment.integer 7

abbrev filled : CacheLayer environment store 60
filled = (Layer.set environment store 60 key seven none times first_layer).1

-- a miss, with a loader that gives 7
abbrev loaded : CacheLayer environment store 60
loaded =
    (Layer.get environment store 60 key (some (ok seven)) none 200 clock clock times first_layer).1

load-run :
    Layer.get environment store 60 key (some (ok seven)) none 200 clock clock times first_layer
    ≡ (ok (some seven), loaded)
unfolding set check_open validate_key validate_value get_timestamp write_wal change_memtable
    store_memtable put_cache put_in count_set flush_when_full compact_when_due continue ◌>>=◌
    open_database replay recover read_files Source.fresh Source.put Source.is_full Table.new
    Table.put Table.is_full Table.old_bytes Table.entry_bytes encode_key encode encode_char
    insert_sorted lookup Wal.new Wal.write Wal.log_opened Wal.log_record Wal.end_write Wal.added
    Wal.add_entry Wal.open_new_wal_file Wal.with_new_file Wal.flush_batch
    Wal.get_latest_wal_sequence serialize_record get_cached_key_bytes compress_value pack Wal.join
    Wal.get_bytes Wal.clear Wal.write_handle Wal.sync_handle insert Cache.new Cache.put
    Cache.drop_key Cache.move_to_end Cache.evict key_eq Layer.new Layer.set on_db metadata ttl_or
    apply commit exit Layer.get Layer.end_cached Layer.end_get Layer.load Layer.count_miss get
    ask_cache ask end_ask answer count_miss count_get Cache.get Source.get Table.get Compactor.new
load-run = refl

requests-get_example : loaded.hits + loaded.misses ≡ first_layer.hits + first_layer.misses + 1
requests-get_example =
    requests-get environment store 60 key (some (ok seven)) none 200 clock clock times first_layer
      loaded (some seven) load-run
