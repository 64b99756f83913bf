-- ===== src/Serializer/RoundTrip.antt =====
-- `read_record_from_file` on what `serialize_record` produces.
use yellowdb.Prelude.{
  ℕ, ◌+◌, ◌≡◌, ◌⊎◌, refl, sym, ◌∙◌, Bool, true, false, ◌&&◌, some, [], ◌∷◌, ◌++◌, ◌≤◌, append_assoc,
  inl, inr, Option-cases, Bool-cases, ltb, arith, length, length-append, take-append_self,
  drop-append_self, ◌==◌, if◌then◌else◌,
}
use yellowdb.Errors.{Error, Result, ok, raise, >>=-eq-ok, serialization_error, rethrow}
use yellowdb.Config.{Config}
use yellowdb.Text.{Key, Bytes}
use yellowdb.Text.Utf8.{encode}
use yellowdb.Text.RoundTrip.{decode-encode}
use yellowdb.Serializer.Struct.{pack, unpack, unpack-pack}
use yellowdb.Serializer.Defs.{Zlib, tombstone_marker, compression_marker, active_marker}
use yellowdb.Serializer.KeyCache.{encode_key}
use yellowdb.Serializer.Write.{deleted_marker, layout, compress_value, record_bytes}
use yellowdb.Serializer.Fields.{is_marker, decode_key, inflate}
use yellowdb.Serializer.Reader.{read_exact, read_exact-ok, lift}
use yellowdb.Serializer.Read.{read_record_from_file}

read_exact-append : (n : ℕ) (a s : Bytes) → length a ≡ n → read_exact n (a ++ s) ≡ ok (a, s)
read_exact-append n a s e =
    read_exact-ok n (a ++ s) (omega (arith, length-append a s))
    ∙ rw (take-append_self n a s e, drop-append_self n a s e)

decode_key-encode_key : (key : Key) (b : Bytes) → encode_key key ≡ ok b → decode_key b ≡ ok key
unfolding encode_key decode_key
decode_key-encode_key key b h = elim (Option-cases (encode key)) [
  | inl e ↦ absurd (ground arith)
  | inr (b', e) ↦ ground (arith, decode-encode key b)
]

is_tombstone : (deleted : Bool) → is_marker tombstone_marker (deleted_marker deleted ∷ []) ≡ deleted
unfolding is_marker deleted_marker
is_tombstone true = refl
is_tombstone false = refl

-- The fields of a record, one after the other.
record Fields (key_bytes value : Bytes) (timestamp : ℕ) (deleted : Bool) (flag : ℕ) (bs : Bytes)
    : Type 0 where
  key_length : Bytes
  value_length : Bytes
  stamp : Bytes
  packed_key_length : pack 4 (length key_bytes) ≡ ok key_length
  packed_value_length : pack 4 (length value) ≡ ok value_length
  packed_stamp : pack 8 timestamp ≡ ok stamp
  whole :
      bs
      ≡ key_length
        ++ (key_bytes ++ (value_length ++ (value ++ (stamp ++ deleted_marker deleted ∷ flag ∷ []))))

layout-Fields :
    (key_bytes value : Bytes) (timestamp : ℕ) (deleted : Bool) (flag : ℕ) {bs : Bytes}
    → layout key_bytes value timestamp deleted flag ≡ ok bs
    → Fields key_bytes value timestamp deleted flag bs
unfolding layout
layout-Fields key_bytes value timestamp deleted flag h =
    let (kl, e1, h1) = >>=-eq-ok (pack 4 (length key_bytes)) _ h in
    let (vl, e2, h2) = >>=-eq-ok (pack 4 (length value)) _ h1 in
    let (st, e3, h3) = >>=-eq-ok (pack 8 timestamp) _ h2 in
    record {
      key_length = kl;
      value_length = vl;
      stamp = st;
      packed_key_length = e1;
      packed_value_length = e2;
      packed_stamp = e3;
      whole = ground arith;
    }

read_exact-one : (b : ℕ) (s : Bytes) → read_exact 1 (b ∷ s) ≡ ok (b ∷ [], s)
unfolding read_exact
read_exact-one b s = refl

module _ {key_bytes value : Bytes} {timestamp : ℕ} {deleted : Bool} {flag : ℕ} {bs : Bytes}
    (f : Fields key_bytes value timestamp deleted flag bs) where
  key_length-Fields : (length f.key_length ≡ 4) × (unpack f.key_length ≡ length key_bytes)
  key_length-Fields =
      let (l, u, _) = unpack-pack 4 (length key_bytes) f.key_length f.packed_key_length in (l, u)

  value_length-Fields : (length f.value_length ≡ 4) × (unpack f.value_length ≡ length value)
  value_length-Fields =
      let (l, u, _) = unpack-pack 4 (length value) f.value_length f.packed_value_length in (l, u)

  stamp-Fields : (length f.stamp ≡ 8) × (unpack f.stamp ≡ timestamp)
  stamp-Fields = let (l, u, _) = unpack-pack 8 timestamp f.stamp f.packed_stamp in (l, u)

  length-Fields : length bs ≡ 4 + length key_bytes + 4 + length value + 8 + 1 + 1
  length-Fields = rw (f.whole) (
      simp length-append
        (omega (arith, key_length-Fields.0, value_length-Fields.0, stamp-Fields.0)))

  module _ (z : Zlib) where
    read-Fields :
        (key : Key) (value' rest : Bytes)
        → decode_key key_bytes ≡ ok key
        → inflate z value deleted (flag == compression_marker) ≡ ok value'
        → read_record_from_file z (bs ++ rest)
          ≡ ok (
            record {
              bytes_read = length bs;
              key = key;
              value = value';
              timestamp = timestamp;
              deleted = deleted;
              compressed = flag == compression_marker;
            },
            rest,
          )
    unfolding read_record_from_file is_marker lift
    read-Fields key value' rest dk inf =
        rw (length-Fields, f.whole)
          (simp append_assoc (
            rw (read_exact-append 4 f.key_length _ key_length-Fields.0) (
              rw (read_exact-append (unpack f.key_length) key_bytes _ (sym key_length-Fields.1)) (
                rw (dk, lift)
                  (rw (read_exact-append 4 f.value_length _ value_length-Fields.0) (
                    rw
                      (read_exact-append (unpack f.value_length) value _
                        (sym value_length-Fields.1))
                      (rw (read_exact-append 8 f.stamp _ stamp-Fields.0) (
                        rw (read_exact-one (deleted_marker deleted) _) (
                          rw (read_exact-one flag _) (
                            rw (is_tombstone deleted, inf)
                              (simp (
                                key_length-Fields.1, value_length-Fields.1, stamp-Fields.1,
                              ))))))))))))

rethrow-eq-ok {ℓ} : {A : Type ℓ} (e : Error) (m : Result A) (a : A) → rethrow e m ≡ ok a → m ≡ ok a
rethrow-eq-ok e (ok b) a h = h
rethrow-eq-ok e (raise x) a h = cc

module _ (z : Zlib) (config : Config) where
  -- What the readers make of a stored value: a tombstone keeps the stored bytes.
  unfoldable pub value_read : Bytes → Bool → Bool → Bytes
  value_read value deleted compress =
      if deleted then (compress_value z config compress value).0 else value

  shrink_cases :
      (compress : Bool) (value : Bytes)
      → (compress_value z config compress value ≡ (value, active_marker))
        ⊎ ((w : Bytes) × (compress_value z config compress value ≡ (w, compression_marker))
            × (z.decompress w ≡ some value))
  unfolding compress_value
  shrink_cases compress value =
      elim (Bool-cases (compress && ltb config.compression_threshold (length value))) [
        | inr small ↦ inl (rw small)
        | inl large ↦ elim (Option-cases (z.compress config.compression_level value)) [
          | inl e ↦ inl (rw (large, e))
          | inr (w, e) ↦ elim (Bool-cases (ltb (length w) (length value))) [
            | inl p ↦
                inr (
                  w,
                  rw (large, e) (rw p),
                  z.decompress-compress config.compression_level value w e,
                )
            | inr p ↦ inl (rw (large, e) (rw p))
          ]
        ]
      ]

  inflate-compress_value :
      (value : Bytes) (deleted compress : Bool)
      → inflate z
          (compress_value z config compress value).0
          deleted
          ((compress_value z config compress value).1 == compression_marker)
        ≡ ok (value_read value deleted compress)
  unfolding inflate value_read
  inflate-compress_value value deleted compress = elim (shrink_cases compress value) [
    | inl e ↦ rw e (ground arith)
    | inr (w, e, d) ↦ rw e (ground arith)
  ]

  -- A record is at least 18 bytes long.
  pub length-record_bytes :
      (key : Key) (value : Bytes) (timestamp : ℕ) (deleted compress : Bool) {bs : Bytes}
      → record_bytes z config key value timestamp deleted compress ≡ ok bs
      → 18 ≤ length bs
  unfolding record_bytes
  length-record_bytes key value timestamp deleted compress {bs} h =
      let (b, e, h') = >>=-eq-ok (encode_key key) _ (rethrow-eq-ok serialization_error _ bs h) in
      omega (arith, length-Fields (layout-Fields b _ timestamp deleted _ h'))

  -- only for a key that can be encoded
  pub record_bytes-encode_key :
      (key : Key) (value : Bytes) (timestamp : ℕ) (deleted compress : Bool) {bs : Bytes}
      → record_bytes z config key value timestamp deleted compress ≡ ok bs
      → (b : Bytes) × (encode_key key ≡ ok b)
  unfolding record_bytes
  record_bytes-encode_key key value timestamp deleted compress {bs} h =
      let (b, e, h') = >>=-eq-ok (encode_key key) _ (rethrow-eq-ok serialization_error _ bs h) in
      (b, e)

  -- Whenever serialize_record produces bytes, compressed or not, read_record_from_file reads them
  -- back whatever follows in the file: same key, timestamp and deletion mark, bytes_read the length
  -- of the record, the rest of the file left; the value is the one written unless the record is a
  -- deletion, whose value comes back as it was stored.
  pub read-record_bytes :
      (key : Key) (value : Bytes) (timestamp : ℕ) (deleted compress : Bool) (bs rest : Bytes)
      → record_bytes z config key value timestamp deleted compress ≡ ok bs
      → read_record_from_file z (bs ++ rest)
        ≡ ok (
          record {
            bytes_read = length bs;
            key = key;
            value = value_read value deleted compress;
            timestamp = timestamp;
            deleted = deleted;
            compressed = (compress_value z config compress value).1 == compression_marker;
          },
          rest,
        )
  unfolding record_bytes
  read-record_bytes key value timestamp deleted compress bs rest h =
      let (b, e, h') = >>=-eq-ok (encode_key key) _ (rethrow-eq-ok serialization_error _ bs h) in
      read-Fields (layout-Fields b _ timestamp deleted _ h') z key
        (value_read value deleted compress) rest (decode_key-encode_key key b e)
        (inflate-compress_value value deleted compress)
