-- ===== src/Tests/Sessions.antt =====
-- Sessions, the log, cursors and the selection of levels at concrete calls.
use yellowdb.Prelude.{
  ◌≡◌, ◌≤◌, ◌<◌, refl, subst, if◌then◌else◌, true, false, none, List, [], ◌∷◌, ◌++◌, arith, map,
  length,
}
use yellowdb.Errors.{ok, serialization_error, raise, ok_inj}
use yellowdb.Text.{Key, Bytes}
use yellowdb.Text.Utf8.{encode, encode_char}
use yellowdb.Text.Order.{key_eq}
use yellowdb.Dict.{lookup, insert}
use yellowdb.Actions.{continue, ◌>>=◌}
use yellowdb.Serializer.KeyCache.{empty, encode_key, get_cached_key_bytes}
use yellowdb.Serializer.Struct.{pack}
use yellowdb.Serializer.Write.{serialize_record, compress_value}
use yellowdb.Memtable.Sorted.{insert_sorted}
use yellowdb.Memtable.Table
use yellowdb.Memtable.Table.{MemtableEntry}
use yellowdb.Cache.Defs as Cache
use yellowdb.Wal.Defs as Wal
use yellowdb.Wal.Defs.{WalFile}
use yellowdb.Wal.Recover.{Entry, recover, read_files}
use yellowdb.Wal.Log.{IsLog, logged}
use yellowdb.Wal.Writes.{write_lem}
use yellowdb.Wal.Closing.{close_lem}
use yellowdb.Serializer.Write.{record_bytes}
use yellowdb.Batch.{Operation, put_operation, commit, apply}
use yellowdb.Batch.Commit.{effect, effect_of, commit-Session}
use yellowdb.Database.Close.{close}
use yellowdb.Database.View.{IsCoherent, stored_value, get-eq-stored_value}
use yellowdb.Database.ReadWrite.{Fits, get-delete}
use yellowdb.Database.Recovery.{latest}
use yellowdb.Database.Sessions.{Session, opened}
use yellowdb.Database.Reopen.{reopen_lem}
use yellowdb.Compactor.Defs as Compactor
use yellowdb.Database.Source
use yellowdb.Database.State.{
  Database, Clock, check_open, validate_key, validate_value, get_timestamp,
}
use yellowdb.Database.Flush.{flush_source}
use yellowdb.Database.Write.{
  set, delete, write_wal, change_memtable, store_memtable, put_in, put_cache, count_set,
  count_delete, flush_when_full, compact_when_due,
}
use yellowdb.Database.Read.{get}
use yellowdb.Database.Open.{open_database, replay}
use yellowdb.Tests.Data.{bob, toy}
use yellowdb.Tests.Databases.{
  platform, clock, start, one, set-one, start-IsLog, entry_one, one-Session, one-IsLog,
  one-IsCoherent,
}
use yellowdb.Database.Flush.{
  flush_of, flush_memtable, write_table, end_table, rotate_wal, end_rotation, count_flush,
}
use yellowdb.Database.Close.{close_wal, end_close}
use yellowdb.Compactor.Level
use yellowdb.Compactor.Defs.{
  write_all, then_write, add_sstable_at, set_level, select_compaction_range, needs_compaction,
  merge_levels,
}
use yellowdb.Bloom.Bits.{with_bit}
use yellowdb.Bloom.Defs as Filter
use yellowdb.Bloom.Defs.{len, get_hashes, set_bits, add}
use yellowdb.Index.Defs as Index
use yellowdb.Index.Defs.{in_use, add_key}
use yellowdb.Items.{modify}
use yellowdb.SsTable.Defs
use yellowdb.SsTable.Defs.{
  SsTable, bytes_of, least, greatest, encoded_length, sparse_interval, sample, append_record,
  write_record,
}
use yellowdb.SsTable.Files.{finalize}
use yellowdb.Cache.Defs.{Version}

Fits-deletion : Fits platform bob [] true one
unfolding set check_open validate_key validate_value get_timestamp write_wal change_memtable
    store_memtable put_cache put_in count_set flush_when_full compact_when_due continue ◌>>=◌
    open_database replay recover read_files Source.fresh Source.put Source.is_full Table.new
    Table.put Table.is_full Table.old_bytes Table.entry_bytes encode_key encode encode_char
    insert_sorted lookup Wal.new Wal.write Wal.log_opened Wal.log_record Wal.end_write Wal.added
    Wal.add_entry Wal.open_new_wal_file Wal.with_new_file Wal.flush_batch
    Wal.get_latest_wal_sequence serialize_record get_cached_key_bytes compress_value pack Wal.join
    Wal.get_bytes Wal.clear Wal.write_handle Wal.sync_handle insert Cache.new Cache.put
    Cache.drop_key Cache.move_to_end Cache.evict key_eq
Fits-deletion n m h = subst (λ x. Source.is_full platform x ≡ false) (ok_inj h) refl

abbrev pub gone : Database platform
gone = (delete platform bob clock one).1

pub delete-one : delete platform bob clock one ≡ (ok tt, gone)
unfolding delete Source.delete Table.delete count_delete set check_open validate_key validate_value
    get_timestamp write_wal change_memtable store_memtable put_cache put_in count_set
    flush_when_full compact_when_due continue ◌>>=◌ open_database replay recover read_files
    Source.fresh Source.put Source.is_full Table.new Table.put Table.is_full Table.old_bytes
    Table.entry_bytes encode_key encode encode_char insert_sorted lookup Wal.new Wal.write
    Wal.log_opened Wal.log_record Wal.end_write Wal.added Wal.add_entry Wal.open_new_wal_file
    Wal.with_new_file Wal.flush_batch Wal.get_latest_wal_sequence serialize_record
    get_cached_key_bytes compress_value pack Wal.join Wal.get_bytes Wal.clear Wal.write_handle
    Wal.sync_handle insert Cache.new Cache.put Cache.drop_key Cache.move_to_end Cache.evict key_eq
delete-one = refl

get-delete_example :
    IsCoherent platform gone
    × ((j : Key)
        → 0 < length j
        → length j ≤ 1024
        → (get platform j gone).0 ≡ (if key_eq bob j then ok none else (get platform j one).0))
get-delete_example = get-delete platform bob clock one gone one-IsCoherent delete-one Fits-deletion

one_open : one.closed ≡ false
unfolding open_database set ◌>>=◌ Wal.write Wal.new serialize_record lookup encode encode_char pack
    Source.put Table.put Table.old_bytes Table.entry_bytes encode_key Source.is_full Table.is_full
one_open = refl

get-eq-stored_value_example :
    ((get platform bob one).0 ≡ stored_value platform bob one.memtable one.compactor)
    × ((get platform bob one).1.memtable ≡ one.memtable)
    × ((get platform bob one).1.compactor ≡ one.compactor)
    × IsCoherent platform (get platform bob one).1
get-eq-stored_value_example =
    get-eq-stored_value platform bob one one-IsCoherent one_open (omega arith) (omega arith)

commit-one : commit platform ((put_operation bob (1 ∷ []), clock) ∷ []) start ≡ (ok tt, one)
unfolding commit apply continue ◌>>=◌
commit-one = rw set-one refl

commit-Session_example :
    (fs : List Entry) × Session platform start ([] ++ fs) one
    × (map effect_of fs
        ≡ map (λ (o : Operation × Clock). effect o.0) ((put_operation bob (1 ∷ []), clock) ∷ []))
commit-Session_example =
    commit-Session platform start start one [] ((put_operation bob (1 ∷ []), clock) ∷ []) opened
      commit-one

abbrev one_bytes : Bytes
one_bytes =
    0 ∷ 0 ∷ 0 ∷ 3 ∷ 98 ∷ 111 ∷ 98 ∷ 0 ∷ 0 ∷ 0 ∷ 1 ∷ 1 ∷ 0 ∷ 0 ∷ 0 ∷ 0 ∷ 0 ∷ 0 ∷ 0 ∷ 1 ∷ 1 ∷ 1 ∷ []

one_record : record_bytes toy platform.config bob (1 ∷ []) 1 false false ≡ ok one_bytes
unfolding record_bytes encode encode_char pack
one_record = refl

write_lem_example :
    (u : Wal.Wal) × (Wal.write toy platform.config bob (1 ∷ []) 1 false one.wal ≡ (ok tt, u))
    × IsLog toy platform.config u
    × (logged toy platform.config u
        ≡ logged toy platform.config one.wal
          ++ record { key = bob; value = 1 ∷ []; timestamp = 1; deleted = false } ∷ [])
write_lem_example =
    write_lem toy platform.config one.wal bob (1 ∷ []) 1 false one_bytes one-IsLog one_record

bad_record :
    record_bytes toy platform.config (0xd800 ∷ []) [] 1 false false ≡ raise serialization_error
unfolding record_bytes encode_key encode encode_char
bad_record = refl

close_lem_example :
    (u : Wal.Wal) × (Wal.close platform.config one.wal ≡ ok u)
    × IsLog toy platform.config u
    × (logged toy platform.config u ≡ logged toy platform.config one.wal)
    × (recover toy u ≡ logged toy platform.config one.wal)
close_lem_example = close_lem toy platform.config one.wal one-IsLog

abbrev ended : Database platform
ended = (close platform one).1

close-one : close platform one ≡ (ok tt, ended)
unfolding close close_wal end_close flush_source flush_of flush_memtable write_table end_table
    rotate_wal end_rotation count_flush write_all then_write add_sstable_at set_level finalize
    Table.get_count Table.get_sorted_entries Table.clear Wal.rotate Wal.close Level.add_sstable
    Defs.new Filter.new Index.new bytes_of write_record append_record sample sparse_interval
    encoded_length add_key in_use len get_hashes set_bits add modify with_bit least greatest
    Compactor.new set check_open validate_key validate_value get_timestamp write_wal change_memtable
    store_memtable put_cache put_in count_set flush_when_full compact_when_due continue ◌>>=◌
    open_database replay recover read_files Source.fresh Source.put Source.is_full Table.new
    Table.put Table.is_full Table.old_bytes Table.entry_bytes encode_key encode encode_char
    insert_sorted lookup Wal.new Wal.write Wal.log_opened Wal.log_record Wal.end_write Wal.added
    Wal.add_entry Wal.open_new_wal_file Wal.with_new_file Wal.flush_batch
    Wal.get_latest_wal_sequence serialize_record get_cached_key_bytes compress_value pack Wal.join
    Wal.get_bytes Wal.clear Wal.write_handle Wal.sync_handle insert Cache.new Cache.put
    Cache.drop_key Cache.move_to_end Cache.evict key_eq
close-one = refl

reopen_lem_example :
    IsCoherent platform (open_database platform ended.wal.files empty 9)
    × ((j : Key)
        → 0 < length j
        → length j ≤ 1024
        → (get platform j (open_database platform ended.wal.files empty 9)).0
          ≡ ok (latest j (entry_one ∷ []) (latest j (logged toy platform.config start.wal) none)))
reopen_lem_example =
    reopen_lem platform start one ended (entry_one ∷ []) empty 9 (omega arith) start-IsLog
      one-Session close-one
