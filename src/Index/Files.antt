-- ===== src/Index/Files.antt =====
-- `save` and `load`. The JSON file is modelled by the object that `json.dump` is given and that
-- `json.load` returns, with the bytes that `hex` and `fromhex` convert.
use yellowdb.Prelude.{ℕ, Option, none, some, [], ◌∷◌, map, if◌then◌else◌}
use yellowdb.Config.{Config}
use yellowdb.Text.{Bytes}
use yellowdb.Dict.{Dict}
use yellowdb.Bloom.Defs.{BloomFilter, to_bytes, from_bytes}
use yellowdb.Index.Keys.{sort}
use yellowdb.Index.Defs.{SparseIndex, in_use}

pub record SavedIndex : Type 0 where
  pub keys : Dict ℕ
  pub bloom_filter : Option Bytes

unfoldable pub save : SparseIndex → SavedIndex
unfolding in_use to_bytes
save ix = record {
  keys = ix.keys;
  bloom_filter = elim (in_use ix.bloom_filter) [ none ↦ none | some f ↦ some (to_bytes f) ];
}

-- An empty hex string is false, like `None`.
unfoldable pub restore : Config → Option Bytes → Option BloomFilter → Option BloomFilter
unfolding from_bytes
restore config none old = old
restore config (some []) old = old
restore config (some (b ∷ bs)) old = some (from_bytes config (b ∷ bs) none)

-- `none` is a file that does not exist.
unfoldable pub load : Config → Option SavedIndex → SparseIndex → SparseIndex
unfolding restore
load config none ix = ix
load config (some data') ix = record {
  keys = data'.keys;
  sorted_keys = sort (map (λ e. e.0) data'.keys);
  bloom_filter =
      if config.enable_bloom_filter
      then restore config data'.bloom_filter ix.bloom_filter
      else ix.bloom_filter;
}
