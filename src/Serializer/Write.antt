-- ===== src/Serializer/Write.antt =====
-- `serialize_record`.
use yellowdb.Prelude.{
  ℕ, ◌≡◌, Bool, ◌&&◌, Option, none, some, [], ◌∷◌, ◌++◌, ltb, length, if◌then◌else◌, ap,
}
use yellowdb.Errors.{Result, ok, serialization_error, rethrow, ◌>>=◌}
use yellowdb.Config.{Config}
use yellowdb.Text.{Key, Bytes}
use yellowdb.Serializer.Struct.{pack}
use yellowdb.Serializer.Defs.{Zlib, tombstone_marker, active_marker, compression_marker}
use yellowdb.Serializer.KeyCache.{
  KeyCache, get_cached_key_bytes, encode_key, IsCoherent, get_cached_key_bytes-eq-encode,
}

unfoldable pub deleted_marker : Bool → ℕ
deleted_marker deleted = if deleted then tombstone_marker else active_marker

-- the fields in the order of the `record.extend` calls
unfoldable pub layout : Bytes → Bytes → ℕ → Bool → ℕ → Result Bytes
unfolding deleted_marker
layout key_bytes value timestamp deleted flag = do
  key_length ← pack 4 (length key_bytes)
  value_length ← pack 4 (length value)
  stamp ← pack 8 timestamp
  ok (
      key_length
      ++ (key_bytes ++ (value_length ++ (value ++ (stamp ++ deleted_marker deleted ∷ flag ∷ [])))))

module _ (z : Zlib) (config : Config) where
  shrink : Bytes → Option Bytes → Bytes × ℕ
  shrink value none = (value, active_marker)
  shrink value (some compressed) =
      if ltb (length compressed) (length value)
      then (compressed, compression_marker)
      else (value, active_marker)

  -- the value as it is stored, and `compression_flag`
  unfoldable pub compress_value : Bool → Bytes → Bytes × ℕ
  unfolding shrink
  compress_value compress value =
      if compress && ltb config.compression_threshold (length value)
      then shrink value (z.compress config.compression_level value)
      else (value, active_marker)

  assemble : Result Bytes → Bytes → ℕ → Bool → Bool → Result Bytes
  unfolding compress_value layout
  assemble key_bytes value timestamp deleted compress = rethrow serialization_error (do
    key_bytes' ← key_bytes
    let (stored, flag) = compress_value compress value
    layout key_bytes' stored timestamp deleted flag)

  unfoldable pub serialize_record :
      Key → Bytes → ℕ → Bool → Bool → KeyCache → Result Bytes × KeyCache
  unfolding assemble get_cached_key_bytes
  serialize_record key value timestamp deleted compress keys =
      let (key_bytes, keys') = get_cached_key_bytes key keys in
      (assemble key_bytes value timestamp deleted compress, keys')

  -- The bytes of a record, with no cache.
  unfoldable pub record_bytes : Key → Bytes → ℕ → Bool → Bool → Result Bytes
  unfolding assemble encode_key
  record_bytes key = assemble (encode_key key)

  -- With a coherent key cache the bytes that serialize_record produces do not depend on what is
  -- cached, and the cache stays coherent.
  pub serialize_record-eq-record_bytes :
      (key : Key) (value : Bytes) (timestamp : ℕ) (deleted compress : Bool) (keys : KeyCache)
      → IsCoherent keys
      → ((serialize_record key value timestamp deleted compress keys).0
          ≡ record_bytes key value timestamp deleted compress)
        × IsCoherent (serialize_record key value timestamp deleted compress keys).1
  serialize_record-eq-record_bytes key value timestamp deleted compress keys h =
      let (e, h') = get_cached_key_bytes-eq-encode key keys h in
      unfold serialize_record record_bytes in
      (ap (λ r. assemble r value timestamp deleted compress) e, h')
