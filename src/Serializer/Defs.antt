-- ===== src/Serializer/Defs.antt =====
-- What the writer and the readers share: zlib, the markers, and a decoded record.
use yellowdb.Prelude.{ℕ, ◌≡◌, Bool, Option, some}
use yellowdb.Text.{Key, Bytes}

-- `zlib.compress(value, level)` and `zlib.decompress(value)`; `none` is `zlib.error`.
pub record Zlib : Type 0 where
  pub compress : ℕ → Bytes → Option Bytes
  pub decompress : Bytes → Option Bytes
  pub decompress-compress :
      (level : ℕ) (value packed : Bytes)
      → compress level value ≡ some packed
      → decompress packed ≡ some value

abbrev pub tombstone_marker : ℕ
tombstone_marker = 0

abbrev pub active_marker : ℕ
active_marker = 1

abbrev pub compression_marker : ℕ
compression_marker = 2

-- The tuple that `deserialize_record` and `read_record_from_file` return.
pub record Decoded : Type 0 where
  pub bytes_read : ℕ
  pub key : Key
  pub value : Bytes
  pub timestamp : ℕ
  pub deleted : Bool
  pub compressed : Bool
