-- ===== src/Tests/Data.antt =====
-- Data that the tests share: keys, values and a toy compressor.
use yellowdb.Prelude.{ℕ, zero, suc, ◌+◌, ◌≡◌, Option, none, some, [], ◌∷◌, arith}
use yellowdb.Prelude.Int.{ℤ, pos}
use yellowdb.Text.{Key, Bytes}
use yellowdb.Text.Literal.{codes}
use yellowdb.Config.{Config, defaults}
use yellowdb.Serializer.Defs.{Zlib}

abbrev pub alice : Key
alice = codes "alice"

abbrev pub bob : Key
bob = codes "bob"

abbrev pub compress : ℕ → Bytes → Option Bytes
compress level (zero ∷ zero ∷ zero ∷ v) = some (zero ∷ v)
compress level v = some (suc zero ∷ v)

abbrev pub decompress : Bytes → Option Bytes
decompress [] = none
decompress (zero ∷ v) = some (zero ∷ zero ∷ zero ∷ v)
decompress (suc n ∷ v) = some v

pub decompress-compress :
    (level : ℕ) (value packed : Bytes)
    → compress level value ≡ some packed
    → decompress packed ≡ some value
decompress-compress level (zero ∷ zero ∷ zero ∷ v) packed h = ground arith
decompress-compress level v packed h = ground arith

-- drops two of three leading zero bytes
abbrev pub toy : Zlib
toy = record {
  compress = compress;
  decompress = decompress;
  decompress-compress = decompress-compress;
}

abbrev pub small : Config
small = record defaults { compression_threshold = 2; memtable_size = 16; bloom_filter_size = 16 }

-- the number of code points, as a stand-in for `hash`
abbrev pub hash : Key → ℤ
hash k = pos (go k)
  where
    go : Key → ℕ
    go [] = 0
    go (c ∷ r) = c + go r

-- the sum of the bytes and 7, as a stand-in for MD5
abbrev pub digest : Bytes → ℕ
digest [] = 7
digest (b ∷ bs) = b + digest bs
