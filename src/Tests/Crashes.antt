-- ===== src/Tests/Crashes.antt =====
-- A crash at a concrete state.
use yellowdb.Prelude.{
  List, [], arith, length, none, refl, true, false, ◌++◌, ◌-◌, ◌<◌, ◌∷◌, ◌≡◌, ◌≤◌,
}
use yellowdb.Errors.{ok}
use yellowdb.Text.{Key}
use yellowdb.Serializer.KeyCache.{empty, encode_key, get_cached_key_bytes}
use yellowdb.Wal.Defs as Wal
use yellowdb.Wal.Defs.{WalFile}
use yellowdb.Wal.Recover.{Entry, read_files, recover}
use yellowdb.Wal.Log.{logged}
use yellowdb.Wal.Follows.{IsSafe}
use yellowdb.Database.Reopen.{session-Follows}
use yellowdb.Wal.Crash.{Crashed, cut_file, no_file}
use yellowdb.Database.State.{check_open, get_timestamp, validate_key, validate_value}
use yellowdb.Database.Read.{get}
use yellowdb.Database.Open.{open_database, replay}
use yellowdb.Database.View.{IsCoherent}
use yellowdb.Database.Recovery.{latest}
use yellowdb.Database.Crash.{crash_lem}
use yellowdb.Tests.Data.{toy, bob}
use yellowdb.Tests.Sessions.{gone, delete-one}
use yellowdb.Database.Timestamps.{IsIncreasing, ReadBy, InOrder, session-IsIncreasing}
use yellowdb.Database.Sessions.{Session, opened, after_set, after_delete, stamp, written}
use yellowdb.Tests.Databases.{
  clock, set-one, entry_one, one, one-Session, platform, start, start-IsLog,
}
use yellowdb.Text.Utf8.{encode, encode_char}
use yellowdb.Text.Order.{key_eq}
use yellowdb.Dict.{insert, lookup}
use yellowdb.Actions.{continue, ◌>>=◌}
use yellowdb.Serializer.Struct.{pack}
use yellowdb.Serializer.Write.{compress_value, serialize_record}
use yellowdb.Memtable.Sorted.{insert_sorted}
use yellowdb.Memtable.Table
use yellowdb.Memtable.Table.{MemtableEntry}
use yellowdb.Cache.Defs as Cache
use yellowdb.Database.Source
use yellowdb.Database.Write.{
  change_memtable, compact_when_due, count_set, flush_when_full, put_cache, put_in, set,
  store_memtable, write_wal,
}

start-IsSafe : IsSafe toy platform.config start.wal
unfolding open_database Wal.new
start-IsSafe = (
  record { sized = refl; records = tt; pending = tt; synced = λ q. tt; closed = λ q. tt },
  omega arith,
)

one-IsSafe : IsSafe toy platform.config one.wal
one-IsSafe = let (_, _, f) = session-Follows platform start-IsLog one-Session in f start-IsSafe

abbrev empty_file : WalFile
empty_file = record { sequence = 1; content = []; durable = 0 }

one_files : one.wal.files ≡ empty_file ∷ []
unfolding set check_open validate_key validate_value get_timestamp write_wal change_memtable
    store_memtable put_cache put_in count_set flush_when_full compact_when_due continue ◌>>=◌
    open_database replay recover read_files Source.fresh Source.put Source.is_full Table.new
    Table.put Table.is_full Table.old_bytes Table.entry_bytes encode_key encode encode_char
    insert_sorted lookup Wal.new Wal.write Wal.log_opened Wal.log_record Wal.end_write Wal.added
    Wal.add_entry Wal.open_new_wal_file Wal.with_new_file Wal.flush_batch
    Wal.get_latest_wal_sequence serialize_record get_cached_key_bytes compress_value pack Wal.join
    Wal.get_bytes Wal.clear Wal.write_handle Wal.sync_handle insert Cache.new Cache.put
    Cache.drop_key Cache.move_to_end Cache.evict key_eq
one_files = refl

-- The file is cut in its empty content.
one-Crashed : Crashed one.wal.files (empty_file ∷ [])
one-Crashed =
    rw one_files (cut_file (record { kept = 0; synced = omega arith; content = refl }) no_file)

crash_lem_example :
    (kept : List Entry) × (lost : List Entry) × (kept ++ lost
      ≡ logged toy platform.config start.wal ++ entry_one ∷ [])
    × (platform.config.sync_wal ≡ true → length lost ≤ platform.config.wal_batch_size - 1)
    × IsCoherent platform (open_database platform (empty_file ∷ []) empty 0)
    × ((j : Key)
        → 0 < length j
        → length j ≤ 1024
        → (get platform j (open_database platform (empty_file ∷ []) empty 0)).0
          ≡ ok (latest j kept none))
crash_lem_example =
    crash_lem platform start one (entry_one ∷ []) (empty_file ∷ []) empty 0 (omega arith)
      start-IsLog start-IsSafe one-Session one-Crashed

-- what two calls write at the same reading of the clock
abbrev two_entries : List Entry
two_entries =
    ([] ++ written bob (1 ∷ []) false (stamp platform clock start) ∷ [])
    ++ written bob [] true (stamp platform clock one) ∷ []

abbrev two_calls : Session platform start two_entries gone
two_calls = after_delete bob clock (after_set bob (1 ∷ []) clock opened set-one) delete-one

session-IsIncreasing_example : IsIncreasing two_entries
unfolding InOrder ReadBy
session-IsIncreasing_example = session-IsIncreasing platform two_calls ((omega arith, tt), (tt, tt))
