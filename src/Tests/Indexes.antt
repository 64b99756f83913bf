-- ===== src/Tests/Indexes.antt =====
-- The sparse index at concrete keys.
use yellowdb.Prelude.{ℕ, ◌≡◌, refl, some, [], ◌∷◌, arith, true}
use yellowdb.Errors.{ok}
use yellowdb.Text.{Bytes}
use yellowdb.Text.Order.{key_eq, key_lt}
use yellowdb.Text.Utf8.{encode, encode_char}
use yellowdb.Dict.{lookup, insert}
use yellowdb.Items.{modify}
use yellowdb.Serializer.KeyCache.{encode_key}
use yellowdb.Bloom.Bits.{with_bit}
use yellowdb.Bloom.Defs.{BloomFilter, len, get_hashes, set_bits, add}
use yellowdb.Bloom.Laws
use yellowdb.Index.Keys.{has, sort, place}
use yellowdb.Index.Defs.{SparseIndex, in_use, add_key, get_offset, might_contain}
use yellowdb.Index.Lookup.{IsFloor, get_offset_lem}
use yellowdb.Index.Complete.{IsComplete, add_key-IsComplete}
use yellowdb.Tests.Data.{digest, alice, bob}

abbrev filter_of : Bytes → BloomFilter
filter_of bits = record { size = 13; num_hashes = 2; bits = bits }

abbrev empty : SparseIndex
empty = record { keys = []; sorted_keys = []; bloom_filter = some (filter_of (0 ∷ 0 ∷ [])) }

abbrev one : SparseIndex
one = (add_key digest bob 40 empty).1

added : (add_key digest bob 40 empty).0 ≡ ok tt
unfolding add_key in_use len add get_hashes encode_key encode encode_char set_bits modify with_bit
added = refl

filter-IsValid : Laws.IsValid (filter_of (0 ∷ 0 ∷ []))
filter-IsValid = record { positive = omega arith; sized = refl; bytes = omega arith }

empty-IsComplete : IsComplete digest empty
unfolding has lookup in_use len
empty-IsComplete = record {
  valid = record { ascending = tt; same = λ k. refl };
  filter = λ f h. let e : filter_of (0 ∷ 0 ∷ []) ≡ f = ground arith in rw (← e) filter-IsValid;
  known = λ k o h. absurd (cc);
}

one-IsComplete : IsComplete digest one
one-IsComplete = add_key-IsComplete digest bob 40 empty empty-IsComplete added

added_two : (add_key digest alice 0 one).0 ≡ ok tt
unfolding add_key in_use len add get_hashes encode_key encode encode_char set_bits modify with_bit
    has place sort key_eq key_lt
added_two = refl

abbrev two : SparseIndex
two = (add_key digest alice 0 one).1

two-IsComplete : IsComplete digest two
two-IsComplete = add_key-IsComplete digest alice 0 one one-IsComplete added_two

sorted_two : two.sorted_keys ≡ alice ∷ bob ∷ []
unfolding add_key in_use len add get_hashes encode_key encode encode_char set_bits modify with_bit
    has place sort key_eq key_lt
sorted_two = refl

bob_at : lookup bob two.keys ≡ some 40
unfolding lookup insert add_key in_use len add get_hashes encode_key encode encode_char set_bits
    modify with_bit key_eq key_lt
bob_at = refl

bob_found : might_contain digest bob two ≡ ok true
bob_found = two-IsComplete.known bob 40 bob_at

get_offset_lem_example : (o : ℕ) × (get_offset digest bob two ≡ ok (some o)) × IsFloor two bob o
get_offset_lem_example = get_offset_lem two bob digest two-IsComplete.valid bob_found
