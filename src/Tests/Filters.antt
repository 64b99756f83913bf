-- ===== src/Tests/Filters.antt =====
-- The Bloom filter at concrete keys.
use yellowdb.Prelude.{◌%◌, ◌≡◌, ◌≢◌, refl, true, some, [], ◌∷◌, All, arith}
use yellowdb.Errors.{ok}
use yellowdb.Text.Utf8.{encode, encode_char}
use yellowdb.Items.{modify}
use yellowdb.Serializer.KeyCache.{encode_key}
use yellowdb.Bloom.Bits.{with_bit}
use yellowdb.Bloom.Defs.{BloomFilter, get_hashes, set_bits, add, might_exist, to_bytes, from_bytes}
use yellowdb.Bloom.Laws.{IsValid}
use yellowdb.Bloom.Membership.{add_all, no_false_negatives, from_bytes-to_bytes}
use yellowdb.Tests.Data.{digest, alice, bob, small}

abbrev fresh : BloomFilter
fresh = record { size = 13; num_hashes = 2; bits = 0 ∷ 0 ∷ [] }

fresh-IsValid : IsValid fresh
fresh-IsValid = record { positive = omega arith; sized = refl; bytes = omega arith }

abbrev both : BloomFilter
both = record { size = 13; num_hashes = 2; bits = 12 ∷ 12 ∷ [] }

add_both : add_all digest (alice ∷ bob ∷ []) fresh ≡ ok both
unfolding add_all add get_hashes encode_key encode encode_char set_bits modify with_bit
add_both = refl

no_false_negatives_example : All (λ k. might_exist digest k both ≡ ok true) (alice ∷ bob ∷ [])
no_false_negatives_example =
    no_false_negatives digest (alice ∷ bob ∷ []) {f = fresh} fresh-IsValid add_both

from_bytes-to_bytes_example :
    (13 % 8 ≡ 0 → from_bytes small (to_bytes fresh) (some 2) ≡ fresh)
    × (13 % 8 ≢ 0 → (from_bytes small (to_bytes fresh) (some 2)).size ≢ 13)
from_bytes-to_bytes_example = from_bytes-to_bytes small fresh 1 fresh-IsValid refl
