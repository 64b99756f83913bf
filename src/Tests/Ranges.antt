-- ===== src/Tests/Ranges.antt =====
-- A range over a table of two records.
use yellowdb.Prelude.{
  ◌≡◌, refl, false, true, none, some, [], ◌∷◌, All, ℕ, zero, suc, List, inl, inr, Option,
  if◌then◌else◌, length,
}
use yellowdb.Errors.{ok}
use yellowdb.Text.{Key}
use yellowdb.Text.Utf8.{encode, encode_char}
use yellowdb.Text.Order.{key_eq, key_lt}
use yellowdb.Dict.{lookup, insert}
use yellowdb.Dict.Distinct.{or_else}
use yellowdb.Items.{modify}
use yellowdb.Serializer.KeyCache.{IsCoherent-empty, empty, encode_key, get_cached_key_bytes}
use yellowdb.Serializer.Struct.{pack}
use yellowdb.Serializer.Write.{serialize_record}
use yellowdb.Bloom.Bits.{with_bit}
use yellowdb.Bloom.Defs as Filter
use yellowdb.Bloom.Defs.{len, get_hashes, set_bits, add}
use yellowdb.Index.Keys.{has, sort, place}
use yellowdb.Index.Defs as Index
use yellowdb.Index.Defs.{in_use, add_key}
use yellowdb.Memtable.Sorted.{IsSorted}
use yellowdb.Memtable.Table.{MemtableEntry}
use yellowdb.SsTable.Defs
use yellowdb.SsTable.Defs.{
  SsTable, bytes_of, least, greatest, encoded_length, sparse_interval, sample, append_record,
  write_record, scan_all,
}
use yellowdb.SsTable.Scan.{Holds, nil, as_read, write_record-Holds, scan_all-Holds}
use yellowdb.SsTable.Written.{write_record-IsWritten}
use yellowdb.Compactor.Versions.{first}
use yellowdb.Compactor.Defs.{Compactor}
use yellowdb.Database.Source
use yellowdb.Iterators.Defs.{range_entries, scan_levels}
use yellowdb.Iterators.Shown.{shown, held}
use yellowdb.Iterators.Listed.{within}
use yellowdb.Iterators.Ranged.{IsRanged, range-eq-scanned}
use yellowdb.Tests.Data.{digest, alice, bob, toy}
use yellowdb.Tests.Lookups.{
  tight, value, table, one, two, tight_platform, stored, written_one, written_two, one-IsWritten,
  stored-IsCoherent,
}

empty-Holds : Holds toy tight [] (bytes_of table.content)
unfolding Defs.new bytes_of
empty-Holds = nil

-- both records, in key order
scanned :
    scan_all toy two
    ≡ as_read toy tight alice value 5 false true ∷ as_read toy tight bob [] 6 true false ∷ []
scanned =
    let x =
      write_record-Holds toy tight digest alice value 5 false true table empty IsCoherent-empty
        empty-Holds written_one in
    scan_all-Holds toy tight _ two (
      write_record-Holds toy tight digest bob [] 6 true false one empty IsCoherent-empty x
        written_two)

bob_indexed : lookup bob two.index.keys ≡ some (length (bytes_of one.content))
unfolding Defs.new Filter.new Index.new bytes_of write_record append_record sample sparse_interval
    encoded_length serialize_record get_cached_key_bytes encode_key encode encode_char pack insert
    lookup add_key in_use len get_hashes set_bits add modify with_bit has place sort key_eq key_lt
bob_indexed = refl

least_two : two.minimum_key ≡ some alice
unfolding Defs.new Filter.new Index.new bytes_of write_record append_record sample sparse_interval
    encoded_length serialize_record get_cached_key_bytes encode_key encode encode_char pack insert
    lookup add_key in_use len get_hashes set_bits add modify with_bit has place sort key_eq key_lt
    least greatest
least_two = refl

greatest_two : two.maximum_key ≡ some bob
unfolding Defs.new Filter.new Index.new bytes_of write_record append_record sample sparse_interval
    encoded_length serialize_record get_cached_key_bytes encode_key encode encode_char pack insert
    lookup add_key in_use len get_hashes set_bits add modify with_bit has place sort key_eq key_lt
    least greatest
greatest_two = refl

two-IsRanged : IsRanged tight_platform bob bob two
unfolding key_lt
two-IsRanged = record {
  written =
      write_record-IsWritten toy tight digest bob [] 6 true false one empty IsCoherent-empty
        one-IsWritten written_two;
  ordered = rw scanned ((refl, tt), (tt, tt));
  reached =
      rw scanned
        (inl refl, (inr (bob, length (bytes_of one.content), bob_indexed, refl, refl), tt));
  bounded =
      inr (alice, bob, least_two, greatest_two, rw scanned ((refl, refl), ((refl, refl), tt)));
}

abbrev levels : ℕ → List SsTable
levels zero = two ∷ []
levels (suc m) = []

levels-IsRanged : (m : ℕ) → All (IsRanged tight_platform bob bob) (levels m)
levels-IsRanged zero = (two-IsRanged, tt)
levels-IsRanged (suc m) = tt

abbrev compactor : Compactor
compactor = record { levels = levels; next_sequence = 1 }

range-eq-scanned_example :
    IsSorted (range_entries tight_platform stored.memtable compactor bob bob)
    × ((j : Key)
        → (o : Option MemtableEntry) × (Source.get tight_platform j stored.memtable ≡ ok o)
          × (lookup j (range_entries tight_platform stored.memtable compactor bob bob) ≡ (
              if within bob bob j
              then shown (
                  or_else
                    (held o)
                    (first j (scan_levels tight_platform compactor 0 tight.compaction_threshold)))
              else none)))
range-eq-scanned_example =
    range-eq-scanned tight_platform bob bob stored.memtable compactor stored-IsCoherent.memtable
      levels-IsRanged
