-- ===== src/Serializer/Deserialize.antt =====
-- `deserialize_record`, which reads at an offset of `data`.
use yellowdb.Prelude.{ℕ, ◌+◌, ◌-◌, leb, length}
use yellowdb.Errors.{Result, ok, serialization_error, guard, ◌>>=◌, ◌>>◌}
use yellowdb.Text.{Bytes}
use yellowdb.Serializer.Struct.{unpack}
use yellowdb.Serializer.Defs.{Zlib, Decoded, tombstone_marker, compression_marker}
use yellowdb.Serializer.Fields.{slice, is_marker, decode_key, inflate}

-- `if position + n > len(data): raise SerializationError(…)`
abbrev pub need : Bytes → ℕ → ℕ → Result (Unit {0})
need bytes position n = guard (leb (position + n) (length bytes)) serialization_error

unfoldable pub deserialize_record : Zlib → Bytes → ℕ → Result Decoded
deserialize_record z bytes offset = do
  need bytes offset 4
  let key_length = unpack (slice bytes offset 4)
  let p1 = offset + 4
  need bytes p1 key_length
  key ← decode_key (slice bytes p1 key_length)
  let p2 = p1 + key_length
  need bytes p2 4
  let value_length = unpack (slice bytes p2 4)
  let p3 = p2 + 4
  need bytes p3 value_length
  let value = slice bytes p3 value_length
  let p4 = p3 + value_length
  need bytes p4 8
  let timestamp = unpack (slice bytes p4 8)
  let p5 = p4 + 8
  need bytes p5 1
  let deleted = is_marker tombstone_marker (slice bytes p5 1)
  let p6 = p5 + 1
  need bytes p6 1
  let compressed = is_marker compression_marker (slice bytes p6 1)
  let p7 = p6 + 1
  value' ← inflate z value deleted compressed
  ok (record {
    bytes_read = p7 - offset;
    key = key;
    value = value';
    timestamp = timestamp;
    deleted = deleted;
    compressed = compressed;
  })
