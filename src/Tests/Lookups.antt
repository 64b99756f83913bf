-- ===== src/Tests/Lookups.antt =====
-- Lookups in tables and in a database with a table, and a compaction, at concrete records.
use yellowdb.Prelude.{
  ◌≡◌, refl, false, true, none, some, [], ◌∷◌, arith, ℕ, zero, suc, List, ◌⊎◌, ◌∙◌,
}
use yellowdb.Prelude.Int.{mod_ℤ}
use yellowdb.Items.{item}
use yellowdb.Errors.{ok}
use yellowdb.Config.{Config}
use yellowdb.Text.{Bytes}
use yellowdb.Text.Utf8.{encode, encode_char}
use yellowdb.Text.Order.{key_eq, key_lt}
use yellowdb.Dict.{lookup, insert}
use yellowdb.Items.{modify}
use yellowdb.Serializer.KeyCache.{IsCoherent-empty, empty, encode_key, get_cached_key_bytes}
use yellowdb.Serializer.Struct.{pack}
use yellowdb.Serializer.Write.{serialize_record}
use yellowdb.Serializer.RoundTrip.{value_read}
use yellowdb.Bloom.Bits.{with_bit}
use yellowdb.Bloom.Defs as Filter
use yellowdb.Bloom.Defs.{len, get_hashes, set_bits, add}
use yellowdb.Index.Keys.{has, sort, place}
use yellowdb.Index.Defs as Index
use yellowdb.Index.Defs.{in_use, add_key}
use yellowdb.SsTable.Defs
use yellowdb.SsTable.Defs.{
  SsTable, bytes_of, least, greatest, encoded_length, sparse_interval, sample, append_record,
  write_record, scan_all, get as get_table,
}
use yellowdb.SsTable.Lookup.{IsWritten, IsAmong, version_of}
use yellowdb.SsTable.Written.{IsSampled, new-IsWritten, write_record-IsWritten, get-write_record}
use yellowdb.Memtable.Concurrent
use yellowdb.Memtable.Table
use yellowdb.Memtable.Table.{MemtableEntry}
use yellowdb.Wal.Defs as Wal
use yellowdb.Wal.Recover.{recover, read_files}
use yellowdb.Compactor.Defs.{compact_levels, search_key, search_levels, search_tables}
use yellowdb.Compactor.Kept.{compact_levels-IsWrittenOut}
use yellowdb.Compactor.Stored.{IsWrittenOut}
use yellowdb.Platform.{Platform}
use yellowdb.Database.Source
use yellowdb.Database.State.{Database}
use yellowdb.Database.Read.{get}
use yellowdb.Database.Open.{open_database, replay}
use yellowdb.Database.Recovery.{open_database_lem}
use yellowdb.Database.View
use yellowdb.Database.View.{stored_value, found_in, get-eq-stored_value}
use yellowdb.Database.Stored.{live, get-stored}
use yellowdb.Tests.Databases.{platform}
use yellowdb.Tests.Data.{digest, alice, bob, toy, small}

-- blocks so small that every key is sampled
abbrev pub tight : Config
tight = record small { block_size = 40 }

abbrev pub value : Bytes
value = 0 ∷ 0 ∷ 0 ∷ 7 ∷ []

abbrev pub table : SsTable
table = Defs.new tight 0 0 none

abbrev pub one : SsTable
one = (write_record toy digest tight alice value 5 false true table empty).1

abbrev pub two : SsTable
two = (write_record toy digest tight bob [] 6 true false one empty).1

pub written_one : (write_record toy digest tight alice value 5 false true table empty).0 ≡ ok tt
unfolding Defs.new Filter.new Index.new bytes_of write_record append_record sample sparse_interval
    encoded_length serialize_record get_cached_key_bytes encode_key encode encode_char pack insert
    lookup add_key in_use len get_hashes set_bits add modify with_bit
written_one = refl

pub written_two : (write_record toy digest tight bob [] 6 true false one empty).0 ≡ ok tt
unfolding Defs.new Filter.new Index.new bytes_of write_record append_record sample sparse_interval
    encoded_length serialize_record get_cached_key_bytes encode_key encode encode_char pack insert
    lookup add_key in_use len get_hashes set_bits add modify with_bit has place sort key_eq key_lt
written_two = refl

one-IsSampled : IsSampled toy tight digest alice table
unfolding sparse_interval encoded_length encode_key encode encode_char write_record append_record
    Defs.new Filter.new Index.new bytes_of sample serialize_record get_cached_key_bytes pack insert
    lookup add_key in_use len get_hashes set_bits add modify with_bit
one-IsSampled = refl

two-IsSampled : IsSampled toy tight digest bob one
unfolding sparse_interval encoded_length encode_key encode encode_char write_record append_record
    Defs.new Filter.new Index.new bytes_of sample serialize_record get_cached_key_bytes pack insert
    lookup add_key in_use len get_hashes set_bits add modify with_bit
two-IsSampled = refl

pub one-IsWritten : IsWritten toy tight digest one
one-IsWritten =
    write_record-IsWritten toy tight digest alice value 5 false true table empty IsCoherent-empty
      (new-IsWritten toy tight digest 0 0) written_one

alice_found : get_table toy digest tight alice one ≡ some (version_of toy tight value 5 false true)
alice_found =
    get-write_record toy tight digest alice value 5 false true table empty IsCoherent-empty
      (new-IsWritten toy tight digest 0 0) one-IsSampled (omega arith) written_one

get-write_record_example :
    get_table toy digest tight bob two ≡ some (version_of toy tight [] 6 true false)
get-write_record_example =
    get-write_record toy tight digest bob [] 6 true false one empty IsCoherent-empty one-IsWritten
      two-IsSampled (omega arith) written_two

abbrev pub tight_platform : Platform
tight_platform = record platform { config = tight }

abbrev levels : ℕ → List SsTable
levels zero = one ∷ []
levels (suc m) = []

-- a database with the table of one record and no cache
abbrev pub stored : Database tight_platform
stored = record (open_database tight_platform [] empty 0) {
  cache = none;
  compactor = record { levels = levels; next_sequence = 1 };
}

pub stored-IsCoherent : View.IsCoherent tight_platform stored
unfolding read_files
stored-IsCoherent = record {
  memtable = (open_database_lem tight_platform [] empty 0 [] (omega arith) refl tt).0.memtable;
  cache = tt;
}

stored-IsWrittenOut : (m : ℕ) → IsWrittenOut tight_platform (stored.compactor.levels m)
stored-IsWrittenOut zero = (one-IsWritten, tt)
stored-IsWrittenOut (suc m) = tt

stored_open : stored.closed ≡ false
unfolding open_database
stored_open = refl

stored_none : Source.get tight_platform alice stored.memtable ≡ ok none
unfolding open_database Source.get replay recover read_files Source.fresh Concurrent.get
    Concurrent.get_memtable_index mod_ℤ item Table.get Table.new lookup Concurrent.new Wal.new
stored_none = refl

in_table :
    search_tables tight_platform alice (one ∷ []) ≡ some (version_of toy tight value 5 false true)
unfolding search_tables
in_table = rw (alice_found, search_tables) refl

in_tables :
    search_key tight_platform alice stored.compactor
    ≡ some (version_of toy tight value 5 false true)
unfolding search_key search_levels
in_tables = rw (in_table, search_key, search_levels) refl

got : (get tight_platform alice stored).0 ≡ ok (some value)
unfolding stored_value found_in value_read
got =
    (get-eq-stored_value tight_platform alice stored stored-IsCoherent stored_open (omega arith)
      (omega arith)).0
    ∙ rw (stored_none, in_tables) refl

get-stored_example :
    ((e : MemtableEntry) × (Source.get tight_platform alice stored.memtable ≡ ok (some e))
      × (e.value ≡ value)
      × (e.deleted ≡ false))
    ⊎ ((m : ℕ) × (t : SsTable) × (timestamp : ℕ) × IsAmong t (stored.compactor.levels m)
        × IsAmong (live alice value timestamp) (scan_all toy t)
        × (Source.get tight_platform alice stored.memtable ≡ ok none))
get-stored_example =
    get-stored tight_platform alice value stored stored-IsCoherent stored-IsWrittenOut stored_open
      (omega arith) (omega arith) got

compact_levels-IsWrittenOut_example :
    IsWrittenOut tight_platform
      ((compact_levels tight_platform 0 1 stored.compactor empty).1.levels 1)
compact_levels-IsWrittenOut_example =
    compact_levels-IsWrittenOut tight_platform 0 1 1 stored.compactor empty IsCoherent-empty refl
      stored-IsWrittenOut
