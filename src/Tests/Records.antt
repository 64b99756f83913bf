-- ===== src/Tests/Records.antt =====
-- The record format at concrete records.
use yellowdb.Prelude.{
  ◌≡◌, ◌≢◌, refl, false, true, none, some, [], ◌∷◌, ◌++◌, arith, take, drop, length, ◌+◌,
}
use yellowdb.Errors.{ok}
use yellowdb.Text.{Key, Bytes}
use yellowdb.Text.Utf8.{encode, encode_char}
use yellowdb.Serializer.KeyCache.{empty, get_cached_key_bytes, IsCoherent, IsCoherent-empty}
use yellowdb.Serializer.Write.{compress_value, record_bytes, serialize_record}
use yellowdb.Serializer.File.{write_bytes, write_record_to_file, read-write_record_to_file}
use yellowdb.Dict.{lookup, insert}
use yellowdb.Serializer.Deserialize.{deserialize_record}
use yellowdb.Serializer.Read.{read_record_from_file}
use yellowdb.Serializer.RoundTrip.{value_read, read-record_bytes}
use yellowdb.Serializer.Agree.{result_of, deserialize_record-eq-read}
use yellowdb.Serializer.Truncation.{read-take-record_bytes}
use yellowdb.Serializer.Struct.{pack}
use yellowdb.Tests.Data.{alice, toy, small}

abbrev accents : Key
accents = 0xe9 ∷ 0x20ac ∷ 0x1f600 ∷ 65 ∷ []

abbrev accents_utf8 : Bytes
accents_utf8 = 0xc3 ∷ 0xa9 ∷ 0xe2 ∷ 0x82 ∷ 0xac ∷ 0xf0 ∷ 0x9f ∷ 0x98 ∷ 0x80 ∷ 65 ∷ []

accents_encoded : encode accents ≡ some accents_utf8
unfolding encode encode_char
accents_encoded = refl

surrogate : encode (0xd800 ∷ []) ≡ none
unfolding encode encode_char
surrogate = refl

abbrev value : Bytes
value = 0 ∷ 0 ∷ 0 ∷ 7 ∷ []

-- alice, with a value that the compressor makes shorter
abbrev stored : Bytes
stored =
    0 ∷ 0 ∷ 0 ∷ 5 ∷ 97 ∷ 108 ∷ 105 ∷ 99 ∷ 101 ∷ 0 ∷ 0 ∷ 0 ∷ 2 ∷ 0 ∷ 7 ∷ 0 ∷ 0 ∷ 0 ∷ 0 ∷ 0 ∷ 0 ∷ 0
    ∷ 5 ∷ 1 ∷ 2 ∷ []

stored_bytes : record_bytes toy small alice value 5 false true ≡ ok stored
unfolding record_bytes encode encode_char pack
stored_bytes = refl

-- a deletion whose value was compressed comes back as it was stored
abbrev stored_deletion : Bytes
stored_deletion =
    0 ∷ 0 ∷ 0 ∷ 5 ∷ 97 ∷ 108 ∷ 105 ∷ 99 ∷ 101 ∷ 0 ∷ 0 ∷ 0 ∷ 2 ∷ 0 ∷ 7 ∷ 0 ∷ 0 ∷ 0 ∷ 0 ∷ 0 ∷ 0 ∷ 0
    ∷ 5 ∷ 0 ∷ 2 ∷ []

stored_deletion_bytes : record_bytes toy small alice value 5 true true ≡ ok stored_deletion
unfolding record_bytes encode encode_char pack
stored_deletion_bytes = refl

deletion_value : value_read toy small value true true ≡ 0 ∷ 7 ∷ []
unfolding value_read compress_value
deletion_value = refl

read-record_bytes_example :
    read_record_from_file toy (stored ++ 9 ∷ [])
    ≡ ok (
      record {
        bytes_read = 25;
        key = alice;
        value = value;
        timestamp = 5;
        deleted = false;
        compressed = true;
      },
      9 ∷ [],
    )
unfolding value_read compress_value
read-record_bytes_example =
    read-record_bytes toy small alice value 5 false true stored (9 ∷ []) stored_bytes

-- a record behind one byte that the file has already
write_alice :
    write_record_to_file toy small alice value 5 false true (7 ∷ []) empty
    ≡ (ok 25, 7 ∷ stored, record { entries = (alice, alice) ∷ []; cache_size = 5 })
unfolding write_record_to_file write_bytes serialize_record get_cached_key_bytes lookup insert
    encode encode_char pack compress_value
write_alice = refl

read-write_record_to_file_example :
    (length (7 ∷ stored) ≡ 1 + 25)
    × (read_record_from_file toy stored
        ≡ ok (
          record {
            bytes_read = 25;
            key = alice;
            value = value;
            timestamp = 5;
            deleted = false;
            compressed = true;
          },
          [],
        ))
    × IsCoherent (record { entries = (alice, alice) ∷ []; cache_size = 5 })
unfolding value_read compress_value
read-write_record_to_file_example =
    read-write_record_to_file toy small alice value 5 false true (7 ∷ []) (7 ∷ stored) empty
      (record { entries = (alice, alice) ∷ []; cache_size = 5 }) 25 IsCoherent-empty write_alice

read-take-record_bytes_example :
    read_record_from_file toy (take 20 stored)
    ≢ ok (
      record {
        bytes_read = 25;
        key = alice;
        value = value;
        timestamp = 5;
        deleted = false;
        compressed = true;
      },
      [],
    )
read-take-record_bytes_example =
    read-take-record_bytes toy small alice value 5 false true stored 20 stored_bytes (omega arith) _
      []

deserialize_record-eq-read_example :
    deserialize_record toy (7 ∷ stored) 1
    ≡ result_of (read_record_from_file toy (drop 1 (7 ∷ stored)))
deserialize_record-eq-read_example = deserialize_record-eq-read toy (7 ∷ stored) 1
