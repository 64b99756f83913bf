-- ===== src/Tests/Cursors.antt =====
-- Cursors, merging and the selection of levels at concrete tables.
use yellowdb.Prelude.{ℕ, refl, ◌==◌, ◌≡◌, if◌then◌else◌, none, some, List, [], ◌∷◌, arith, map}
use yellowdb.Errors.{ok}
use yellowdb.Dict.{lookup}
use yellowdb.Compactor.Defs as Compactor
use yellowdb.Database.Source
use yellowdb.Compactor.Level
use yellowdb.Compactor.Compacted.{Compacted, compact_levels_lem}
use yellowdb.Compactor.Defs.{
  compact_levels, compact_tables, end_merge, write_all, then_write, remove_all, add_sstable_at,
  set_level,
}
use yellowdb.Compactor.Merge.{merge_newer, merge_absent, is_newer, sorted_items, entries_of}
use yellowdb.Memtable.Sorted.{insert_sorted}
use yellowdb.Dict.{insert}
use yellowdb.Errors.{ok}
use yellowdb.Items.{modify}
use yellowdb.Wal.Recover.{read_all, read_rounds}
use yellowdb.Serializer.Read.{read_record_from_file}
use yellowdb.Serializer.Reader.{read_exact, lift}
use yellowdb.Serializer.KeyCache.{empty, encode_key, get_cached_key_bytes, IsCoherent-empty}
use yellowdb.Serializer.Struct.{pack, unpack}
use yellowdb.Serializer.Fields.{decode_key, inflate, is_marker}
use yellowdb.Serializer.Write.{serialize_record, compress_value}
use yellowdb.Text.Utf8.{encode, encode_char, decode, decode_char, decode_rounds}
use yellowdb.Bloom.Bits.{with_bit}
use yellowdb.Bloom.Defs as Filter
use yellowdb.Bloom.Defs.{len, get_hashes, set_bits, add}
use yellowdb.Index.Defs as Index
use yellowdb.Index.Defs.{in_use, add_key}
use yellowdb.SsTable.Files.{finalize}
use yellowdb.SsTable.Defs.{
  bytes_of, least, greatest, encoded_length, sparse_interval, sample, append_record, write_record,
  scan_all,
}
use yellowdb.Tests.Data.{alice, bob, small}
use yellowdb.Tests.Databases.{platform}
use yellowdb.Compactor.Defs.{write_all, then_write, add_sstable_at, set_level, merge_levels}
use yellowdb.Compactor.Merge.{scan_tables}
use yellowdb.SsTable.Defs
use yellowdb.SsTable.Defs.{
  SsTable, bytes_of, least, greatest, encoded_length, sparse_interval, sample, append_record,
  write_record,
}
use yellowdb.Iterators.Defs.{Cursor, next, reset, count}
use yellowdb.Iterators.Exhaust.{take_from, take_from-reset}

abbrev cursor : Cursor
cursor = record { entries = (alice, 1 ∷ []) ∷ (bob, 2 ∷ []) ∷ []; current_index = 1 }

take_from-reset_example :
    ((take_from (count cursor) (reset cursor)).0 ≡ map some cursor.entries)
    × (next (take_from (count cursor) (reset cursor)).1
        ≡ (none, (take_from (count cursor) (reset cursor)).1))
take_from-reset_example = take_from-reset cursor

abbrev table : List ℕ → SsTable
table bytes = record (Defs.new small 0 0 (some bytes)) { file_size = 1000000000 }

-- bob, once
abbrev records : List ℕ
records =
    0 ∷ 0 ∷ 0 ∷ 3 ∷ 98 ∷ 111 ∷ 98 ∷ 0 ∷ 0 ∷ 0 ∷ 1 ∷ 1 ∷ 0 ∷ 0 ∷ 0 ∷ 0 ∷ 0 ∷ 0 ∷ 0 ∷ 1 ∷ 1 ∷ 1 ∷ []

abbrev tables : Compactor.Compactor
tables = record { levels = λ n. if n == 0 then table records ∷ [] else []; next_sequence = 1 }

abbrev compacted : Compactor.Compactor
compacted = (compact_levels platform 0 1 tables empty).1

compact-ok : (compact_levels platform 0 1 tables empty).0 ≡ ok tt
unfolding compact_levels compact_tables end_merge write_all then_write merge_levels merge_newer
    merge_absent is_newer scan_tables scan_all read_all read_rounds read_record_from_file read_exact
    sorted_items entries_of insert_sorted lookup insert remove_all Level.remove_sstable
    Level.same_table finalize add_sstable_at set_level Level.add_sstable Defs.new Filter.new
    Index.new bytes_of write_record append_record sample sparse_interval encoded_length
    serialize_record get_cached_key_bytes encode_key encode encode_char pack compress_value add_key
    in_use len get_hashes set_bits add modify with_bit least greatest unpack lift decode_key decode
    decode_char decode_rounds inflate is_marker
compact-ok = refl

compact_levels_lem_example : Compacted platform 0 1 tables compacted
compact_levels_lem_example =
    compact_levels_lem platform 0 1 (table records) [] tables empty refl (omega arith)
      IsCoherent-empty refl compact-ok
