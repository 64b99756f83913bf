-- ===== src/Tests/Databases.antt =====
-- The database at concrete calls.
use yellowdb.Prelude.{
  ◌≡◌, ◌≤◌, ◌<◌, refl, subst, if◌then◌else◌, true, false, none, some, [], ◌∷◌, ◌++◌, arith, length,
}
use yellowdb.Errors.{ok, ok_inj}
use yellowdb.Text.{Key}
use yellowdb.Text.Utf8.{encode, encode_char}
use yellowdb.Text.Order.{key_eq}
use yellowdb.Dict.{lookup, insert}
use yellowdb.Actions.{continue, ◌>>=◌}
use yellowdb.Serializer.KeyCache.{empty, encode_key, get_cached_key_bytes, IsCoherent-empty}
use yellowdb.Serializer.Struct.{pack}
use yellowdb.Serializer.Write.{serialize_record, compress_value}
use yellowdb.Memtable.Sorted.{insert_sorted}
use yellowdb.Memtable.SortedDict.{plain}
use yellowdb.Memtable.Table
use yellowdb.Memtable.Table.{MemtableEntry}
use yellowdb.Cache.Defs as Cache
use yellowdb.Wal.Defs as Wal
use yellowdb.Wal.Defs.{WalFile}
use yellowdb.Wal.Recover.{Entry, recover, read_files}
use yellowdb.Wal.Log.{IsLog, IsWhole-nil, logged}
use yellowdb.Database.Close.{flush, compact, close, destroy}
use yellowdb.Database.Closed.{Refuses, closed_lem}
use yellowdb.Database.View.{IsCoherent}
use yellowdb.Database.ReadWrite.{Fits, get-set}
use yellowdb.Database.Recovery.{open_database_lem}
use yellowdb.Database.Sessions.{written, Session, opened, after_set}
use yellowdb.Database.Reopen.{session_lem}
use yellowdb.Platform.{Platform}
use yellowdb.Database.Source
use yellowdb.Database.State.{
  Database, Clock, check_open, validate_key, validate_value, get_timestamp,
}
use yellowdb.Database.Write.{
  set, delete, write_wal, change_memtable, store_memtable, put_in, put_cache, count_set,
  flush_when_full, compact_when_due,
}
use yellowdb.Database.Read.{get}
use yellowdb.Database.Open.{open_database, replay}
use yellowdb.Tests.Data.{bob, toy, small, digest, hash}

abbrev pub platform : Platform
platform = record {
  z = toy;
  md5 = digest;
  hash = hash;
  sd = plain MemtableEntry;
  config = record small { enable_concurrent_memtables = false; sync_wal = true };
  old_file = λ level sequence. none;
}

abbrev pub clock : Clock
clock = record { stamp = 100; check = 5; reset = 5 }

abbrev pub start : Database platform
start = open_database platform [] empty 0

abbrev pub one : Database platform
one = (set platform bob (1 ∷ []) clock start).1

pub set-one : set platform bob (1 ∷ []) clock start ≡ (ok tt, one)
unfolding set check_open validate_key validate_value get_timestamp write_wal change_memtable
    store_memtable put_cache put_in count_set flush_when_full compact_when_due continue ◌>>=◌
    open_database replay recover read_files Source.fresh Source.put Source.is_full Table.new
    Table.put Table.is_full Table.old_bytes Table.entry_bytes encode_key encode encode_char
    insert_sorted lookup Wal.new Wal.write Wal.log_opened Wal.log_record Wal.end_write Wal.added
    Wal.add_entry Wal.open_new_wal_file Wal.with_new_file Wal.flush_batch
    Wal.get_latest_wal_sequence serialize_record get_cached_key_bytes compress_value pack Wal.join
    Wal.get_bytes Wal.clear Wal.write_handle Wal.sync_handle insert Cache.new Cache.put
    Cache.drop_key Cache.move_to_end Cache.evict key_eq
set-one = refl

pub start-IsCoherent : IsCoherent platform start
unfolding read_files
start-IsCoherent = (open_database_lem platform [] empty 0 [] (omega arith) refl tt).0

pub start-IsLog : IsLog toy platform.config start.wal
unfolding open_database Wal.new Wal.join
start-IsLog = record {
  files = tt;
  batch = IsWhole-nil toy platform.config;
  counted = refl;
  current = λ o. absurd (cc);
  idle = λ o. refl;
  keys = IsCoherent-empty;
}

abbrev pub entry_one : Entry
entry_one = written bob (1 ∷ []) false 101

pub one-Session : Session platform start (entry_one ∷ []) one
unfolding open_database
one-Session = after_set bob (1 ∷ []) clock opened set-one

pub one-IsLog : IsLog toy platform.config one.wal
one-IsLog = (session_lem platform start-IsLog one-Session).0

session_lem_example :
    IsLog toy platform.config one.wal
    × (logged toy platform.config one.wal ≡ logged toy platform.config start.wal ++ entry_one ∷ [])
session_lem_example = session_lem platform start-IsLog one-Session

abbrev shut : Database platform
shut = record start { closed = true }

closed_lem_example :
    Refuses platform (set platform bob [] clock) shut
    × Refuses platform (get platform bob) shut
    × Refuses platform (delete platform bob clock) shut
    × Refuses platform (flush platform) shut
    × Refuses platform (compact platform) shut
    × Refuses platform (close platform) shut
    × Refuses platform (destroy platform) shut
closed_lem_example = closed_lem platform shut bob [] clock refl

Fits-one : Fits platform bob (1 ∷ []) false start
unfolding open_database replay recover read_files Source.fresh Source.put Source.is_full Table.new
    Table.put Table.is_full Table.old_bytes Table.entry_bytes encode_key encode encode_char
    insert_sorted lookup Wal.new
Fits-one n m h = subst (λ x. Source.is_full platform x ≡ false) (ok_inj h) refl

get-set_example :
    IsCoherent platform one
    × ((j : Key)
        → 0 < length j
        → length j ≤ 1024
        → (get platform j one).0
          ≡ (if key_eq bob j then ok (some (1 ∷ [])) else (get platform j start).0))
unfolding open_database
get-set_example =
    get-set platform bob (1 ∷ []) clock start one start-IsCoherent set-one Fits-one (omega arith)

pub one-IsCoherent : IsCoherent platform one
one-IsCoherent =
    (get-set platform bob (1 ∷ []) clock start one start-IsCoherent set-one Fits-one
      (omega arith)).0
