-- ===== src/Serializer/Read.antt =====
-- `read_record_from_file`.
use yellowdb.Prelude.{◌+◌}
use yellowdb.Errors.{ok}
use yellowdb.Serializer.Struct.{unpack}
use yellowdb.Serializer.Defs.{Zlib, Decoded, tombstone_marker, compression_marker}
use yellowdb.Serializer.Fields.{is_marker, decode_key, inflate}
use yellowdb.Serializer.Reader.{Reader, ◌>>=◌, lift, read_exact}

unfoldable pub read_record_from_file : Zlib → Reader Decoded
read_record_from_file z = do
  header ← read_exact 4
  key_data ← read_exact (unpack header)
  key ← lift (decode_key key_data)
  value_length_header ← read_exact 4
  value ← read_exact (unpack value_length_header)
  timestamp_header ← read_exact 8
  deleted_marker ← read_exact 1
  compression_marker' ← read_exact 1
  let deleted = is_marker tombstone_marker deleted_marker
  let compressed = is_marker compression_marker compression_marker'
  value' ← lift (inflate z value deleted compressed)
  λ s. ok (
    record {
      bytes_read = 4 + unpack header + 4 + unpack value_length_header + 8 + 1 + 1;
      key = key;
      value = value';
      timestamp = unpack timestamp_header;
      deleted = deleted;
      compressed = compressed;
    },
    s,
  )
