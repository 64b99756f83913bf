-- ===== src/Serializer/Fields.antt =====
-- What the two readers do with the fields of a record once they have the bytes.
use yellowdb.Prelude.{
  ℕ, Bool, false, not, ◌&&◌, none, some, [], ◌∷◌, take, drop, ◌==◌, if◌then◌else◌,
}
use yellowdb.Errors.{Result, ok, raise, serialization_error}
use yellowdb.Text.{Key, Bytes}
use yellowdb.Text.Utf8.{decode}
use yellowdb.Serializer.Defs.{Zlib}

-- data[p : p + n]
abbrev pub slice : Bytes → ℕ → ℕ → Bytes
slice bytes p n = take n (drop p bytes)

-- `d == MARKER`
unfoldable pub is_marker : ℕ → Bytes → Bool
is_marker m (b ∷ []) = b == m
is_marker m _ = false

-- `d.decode("utf-8")`; every exception but `SerializationError` is turned into one.
unfoldable pub decode_key : Bytes → Result Key
decode_key bs = elim (decode bs) [ none ↦ raise serialization_error | some k ↦ ok k ]

-- `if compressed and not deleted: value = zlib.decompress(value)`
unfoldable pub inflate : Zlib → Bytes → Bool → Bool → Result Bytes
inflate z value deleted compressed =
    if compressed && not deleted
    then (elim (z.decompress value) [ none ↦ raise serialization_error | some v ↦ ok v ])
    else ok value
