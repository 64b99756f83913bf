-- ===== src/Tests/Files.antt =====
-- A sorted table at concrete records.
use yellowdb.Prelude.{◌≡◌, refl, false, true, none, [], ◌∷◌, ◌++◌}
use yellowdb.Errors.{ok}
use yellowdb.Text.{Bytes}
use yellowdb.Text.Utf8.{encode, encode_char}
use yellowdb.Dict.{lookup, insert}
use yellowdb.Items.{modify}
use yellowdb.Serializer.KeyCache.{IsCoherent-empty, empty, encode_key, get_cached_key_bytes}
use yellowdb.Serializer.Struct.{pack}
use yellowdb.Serializer.Write.{serialize_record}
use yellowdb.Bloom.Bits.{with_bit}
use yellowdb.Bloom.Defs as Filter
use yellowdb.Bloom.Defs.{len, get_hashes, set_bits, add}
use yellowdb.Index.Defs as Index
use yellowdb.Index.Defs.{in_use, add_key}
use yellowdb.SsTable.Defs
use yellowdb.SsTable.Defs.{
  SsTable, bytes_of, least, greatest, encoded_length, sparse_interval, sample, append_record,
  write_record, scan_all,
}
use yellowdb.SsTable.Scan.{Holds, nil, as_read, scan_all-write_record}
use yellowdb.Tests.Data.{digest, alice, toy, small}

abbrev value : Bytes
value = 0 ∷ 0 ∷ 0 ∷ 7 ∷ []

abbrev table : SsTable
table = Defs.new small 0 0 none

table-Holds : Holds toy small [] (bytes_of table.content)
unfolding Defs.new bytes_of
table-Holds = nil

written : (write_record toy digest small alice value 5 false true table empty).0 ≡ ok tt
unfolding Defs.new Filter.new Index.new bytes_of write_record append_record sample sparse_interval
    encoded_length serialize_record get_cached_key_bytes encode_key encode encode_char pack insert
    lookup add_key in_use len get_hashes set_bits add modify with_bit
written = refl

scan_all-write_record_example :
    scan_all toy (write_record toy digest small alice value 5 false true table empty).1
    ≡ scan_all toy table ++ as_read toy small alice value 5 false true ∷ []
scan_all-write_record_example =
    scan_all-write_record toy small digest alice value 5 false true table empty IsCoherent-empty
      table-Holds written
