-- ===== src/Serializer/File.antt =====
-- `write_record_to_file`, for a file whose position is at its end: the bytes of the file before and
-- after.
use yellowdb.Prelude.{
  ℕ, ◌+◌, ◌≡◌, refl, sym, ap, ◌∙◌, subst, Bool, [], ◌++◌, append-nil, length, length-append, drop,
  drop-append_self, arith, ◌==◌,
}
use yellowdb.Errors.{Result, ok, raise, serialization_error, ok_inj}
use yellowdb.Config.{Config}
use yellowdb.Text.{Key, Bytes}
use yellowdb.Serializer.Defs.{Zlib, compression_marker}
use yellowdb.Serializer.KeyCache.{KeyCache, IsCoherent}
use yellowdb.Serializer.Write.{compress_value, serialize_record, serialize_record-eq-record_bytes}
use yellowdb.Serializer.Read.{read_record_from_file}
use yellowdb.Serializer.RoundTrip.{value_read, read-record_bytes}

module _ (z : Zlib) (config : Config) where
  -- the statements behind `serialize_record`
  unfoldable pub write_bytes : Result Bytes → Bytes → Result ℕ × Bytes
  write_bytes (raise e) file = (raise serialization_error, file)
  write_bytes (ok bytes) file = (ok (length bytes), file ++ bytes)

  unfoldable pub write_record_to_file :
      Key → Bytes → ℕ → Bool → Bool → Bytes → KeyCache → Result ℕ × Bytes × KeyCache
  unfolding write_bytes
  write_record_to_file key value timestamp deleted compress file keys =
      let (bytes, keys') = serialize_record z config key value timestamp deleted compress keys in
      let (result, file') = write_bytes bytes file in (result, file', keys')

  write_bytes_inv :
      (r : Result Bytes) (file file' : Bytes) (n : ℕ)
      → write_bytes r file ≡ (ok n, file')
      → (bytes : Bytes) × (r ≡ ok bytes) × (n ≡ length bytes) × (file' ≡ file ++ bytes)
  unfolding write_bytes
  write_bytes_inv (raise e) file file' n h = absurd (cc)
  write_bytes_inv (ok bytes) file file' n h =
      (bytes, refl, ok_inj (sym (ap (λ r. r.0) h)), sym (ap (λ r. r.1) h))

  -- With a coherent key cache, after a write_record_to_file that does not raise the file is longer
  -- by the number that it returns, and read_record_from_file at the old end reads that many bytes
  -- and the record that was written, up to the end of the file; the value of a deletion comes back
  -- as it was stored.
  pub read-write_record_to_file :
      (key : Key) (value : Bytes) (timestamp : ℕ) (deleted compress : Bool) (file file' : Bytes)
      (keys keys' : KeyCache) (n : ℕ)
      → IsCoherent keys
      → write_record_to_file key value timestamp deleted compress file keys ≡ (ok n, file', keys')
      → (length file' ≡ length file + n)
        × (read_record_from_file z (drop (length file) file')
            ≡ ok (
              record {
                bytes_read = n;
                key = key;
                value = value_read z config value deleted compress;
                timestamp = timestamp;
                deleted = deleted;
                compressed = (compress_value z config compress value).1 == compression_marker;
              },
              [],
            ))
        × IsCoherent keys'
  unfolding write_record_to_file
  read-write_record_to_file key value timestamp deleted compress file file' keys keys' n c h =
      let r = serialize_record z config key value timestamp deleted compress keys in
      let (q, k) =
        serialize_record-eq-record_bytes z config key value timestamp deleted compress keys c in
      let w : write_bytes r.0 file ≡ (ok n, file') =
        ap (λ (x : Result ℕ × Bytes × KeyCache). (x.0, x.1)) h in
      let (bytes, e, en, ef) = write_bytes_inv r.0 file file' n w in
      let d : drop (length file) file' ≡ bytes ++ [] =
        rw (ef, append-nil) (drop-append_self (length file) file bytes refl) in
      (
        omega (arith, ap (λ (x : Bytes). length x) ef, length-append file bytes, en),
        rw (d, en)
            (read-record_bytes z config key value timestamp deleted compress bytes [] (sym q ∙ e)),
        subst IsCoherent (ap (λ (x : Result ℕ × Bytes × KeyCache). x.2) h) k,
      )
