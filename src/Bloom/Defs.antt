-- ===== src/Bloom/Defs.antt =====
-- `BloomFilter`. `hashlib.md5` is not part of the repository: `md5` gives its digest as the
-- big-endian integer that `int.from_bytes` makes of it. `get_false_positive_rate` is floating
-- point and left out.
use yellowdb.Prelude.{
  ℕ, zero, suc, ◌+◌, ◌*◌, ◌/◌, ◌%◌, Bool, true, false, Option, none, some, List, [], ◌∷◌, ◌++◌,
  length, replicate, ltb, if◌then◌else◌,
}
use yellowdb.Errors.{Result, ok, value_error, zero_division_error, guard, ◌>>=◌, ◌>>◌}
use yellowdb.Config.{Config}
use yellowdb.Text.{Key, Bytes}
use yellowdb.Items.{item, modify}
use yellowdb.Serializer.KeyCache.{encode_key}
use yellowdb.Bloom.Bits.{with_bit, has_bit}

pub record BloomFilter : Type 0 where
  pub size : ℕ
  pub num_hashes : ℕ
  pub bits : Bytes

-- `x or default`: `None` and 0 give the default
abbrev pub or_default : Option ℕ → ℕ → ℕ
or_default none d = d
or_default (some zero) d = d
or_default (some (suc n)) d = suc n

unfoldable pub new : Config → Option ℕ → Option ℕ → BloomFilter
new config size num_hashes =
    let size' = or_default size config.bloom_filter_size in
    record {
      size = size';
      num_hashes = or_default num_hashes config.bloom_filter_hash_functions;
      bits = replicate ((size' + 7) / 8) 0;
    }

-- the loop of `add`
unfoldable pub set_bits : List ℕ → Bytes → Result Bytes
set_bits [] bits = ok bits
set_bits (h ∷ hs) bits = do
  bits' ← modify (h / 8) (λ b. ok (with_bit b (h % 8))) bits
  set_bits hs bits'

-- the loop of `might_exist`
unfoldable pub all_set : List ℕ → Bytes → Result Bool
all_set [] bits = ok true
all_set (h ∷ hs) bits = do
  b ← item (h / 8) bits
  let rest = all_set hs bits
  if has_bit b (h % 8) then rest else ok false

module _ (md5 : Bytes → ℕ) where
  -- the loop of `_get_hashes` for `rounds` more values of `i`; `bytes([i])` raises from 256 on
  unfoldable pub hashes_from : ℕ → ℕ → Bytes → ℕ → Result (List ℕ)
  hashes_from zero i key_bytes size = ok []
  hashes_from (suc rounds) i key_bytes size = do
    guard (ltb i 256) value_error
    guard (ltb 0 size) zero_division_error
    rest ← hashes_from rounds (suc i) key_bytes size
    ok (md5 (key_bytes ++ i ∷ []) % size ∷ rest)

  unfoldable pub get_hashes : BloomFilter → Key → Result (List ℕ)
  unfolding hashes_from
  get_hashes f key = do key_bytes ← encode_key key; hashes_from f.num_hashes 0 key_bytes f.size

  unfoldable pub add : Key → BloomFilter → Result BloomFilter
  add key f = do hs ← get_hashes f key; bits ← set_bits hs f.bits; ok (record f { bits = bits })

  unfoldable pub might_exist : Key → BloomFilter → Result Bool
  might_exist key f = do hs ← get_hashes f key; all_set hs f.bits

unfoldable pub to_bytes : BloomFilter → Bytes
to_bytes f = f.bits

unfoldable pub from_bytes : Config → Bytes → Option ℕ → BloomFilter
unfolding new
from_bytes config bytes num_hashes =
    let n = or_default num_hashes config.bloom_filter_hash_functions in
    record (new config (some (length bytes * 8)) (some n)) { bits = bytes }

-- `len(filter)`, which is also its truth value
unfoldable pub len : BloomFilter → ℕ
len f = length f.bits
