-- ===== src/Index/Defs.antt =====
-- `SparseIndex`, but for `save` and `load`. A method that raises midway has changed the object
-- before; the object is returned beside the result.
use yellowdb.Prelude.{
  ℕ, zero, suc, ◌+◌, ◌-◌, ◌/◌, Bool, true, false, Option, none, some, List, [], ◌∷◌, ◌++◌, length,
  ltb, ◌==◌, if◌then◌else◌,
}
use yellowdb.Errors.{Result, ok, raise, key_error, ◌>>=◌}
use yellowdb.Config.{Config}
use yellowdb.Text.{Key, Bytes}
use yellowdb.Text.Order.{key_lt, key_le}
use yellowdb.Dict.{Dict, lookup, insert}
use yellowdb.Items.{item}
use yellowdb.Bloom.Defs.{BloomFilter, len, add, might_exist}
use yellowdb.Bloom.Defs
use yellowdb.Index.Keys.{has, sort}

pub record SparseIndex : Type 0 where
  pub keys : Dict ℕ
  pub sorted_keys : List Key
  pub bloom_filter : Option BloomFilter

unfoldable pub new : Config → SparseIndex
new config = record {
  keys = [];
  sorted_keys = [];
  bloom_filter = if config.enable_bloom_filter then some (Defs.new config none none) else none;
}

-- `if self._bloom_filter`: neither `None` nor of length 0
unfoldable pub in_use : Option BloomFilter → Option BloomFilter
in_use none = none
in_use (some f) = if len f == 0 then none else some f

-- keys[key]
unfoldable pub offset_of : Dict ℕ → Key → Result ℕ
offset_of keys key = elim (lookup key keys) [ none ↦ raise key_error | some o ↦ ok o ]

-- The loop of the binary search. `stop` is `right + 1`, so that the test `left <= right` is
-- `left < stop` and `right` may be -1.
unfoldable pub search : ℕ → SparseIndex → Key → ℕ → ℕ → ℕ → Result ℕ
unfolding offset_of
search zero ix key left stop result_offset = ok result_offset
search (suc fuel) ix key left stop result_offset = elim (ltb left stop) [
  | false ↦ ok result_offset
  | true ↦
      let middle = (left + (stop - 1)) / 2 in
      item middle ix.sorted_keys >>= λ middle_key. elim (key_le middle_key key) [
        | true ↦
            offset_of ix.keys middle_key >>= λ offset. search fuel ix key (middle + 1) stop offset
        | false ↦ search fuel ix key left middle result_offset
      ]
]

-- the first `i` with `keys[i] >= start_key`, or else 0
unfoldable pub first_at_least : Key → List Key → ℕ → ℕ
first_at_least start_key [] i = 0
first_at_least start_key (k ∷ ks) i =
    let rest = first_at_least start_key ks (i + 1) in if key_le start_key k then i else rest

-- `end_index + 1`: the first `i` with `keys[i] > end_key`, or else their number
unfoldable pub first_above : Key → List Key → ℕ
first_above end_key [] = 0
first_above end_key (k ∷ ks) =
    let rest = first_above end_key ks in if key_lt end_key k then 0 else rest + 1

-- keys.get(key, 0)
unfoldable pub offset_or_0 : Dict ℕ → Key → ℕ
offset_or_0 keys key = elim (lookup key keys) [ none ↦ 0 | some o ↦ o ]

unfoldable pub get_key_range : Key → Key → SparseIndex → Result (ℕ × ℕ)
unfolding first_at_least first_above offset_or_0
get_key_range start_key end_key ix = elim ix.sorted_keys [
  | [] ↦ ok (0, 0)
  | _ ∷ _ ↦ item (first_at_least start_key ix.sorted_keys 0) ix.sorted_keys >>= λ first.
      elim (first_above end_key ix.sorted_keys) [
        | zero ↦ ok (offset_or_0 ix.keys first, 0)
        | suc end_index ↦ item end_index ix.sorted_keys >>= λ last.
            ok (offset_or_0 ix.keys first, offset_or_0 ix.keys last)
      ]
]

unfoldable pub clear : Config → SparseIndex → SparseIndex
unfolding in_use
clear config ix = record {
  keys = [];
  sorted_keys = [];
  bloom_filter = elim (in_use ix.bloom_filter) [
    | none ↦ ix.bloom_filter
    | some f ↦ some (Defs.new config none none)
  ];
}

unfoldable pub count : SparseIndex → ℕ
count ix = length ix.keys

module _ (md5 : Bytes → ℕ) where
  unfoldable pub add_key : Key → ℕ → SparseIndex → Result (Unit {0}) × SparseIndex
  unfolding in_use
  add_key key offset ix =
      let ix' : SparseIndex = record ix {
        keys = insert key offset ix.keys;
        sorted_keys =
            if has key ix.sorted_keys then ix.sorted_keys else sort (ix.sorted_keys ++ key ∷ []);
      } in
      elim (in_use ix.bloom_filter) [
        | none ↦ (ok tt, ix')
        | some f ↦ elim (add md5 key f) [
          | raise e ↦ (raise e, ix')
          | ok f' ↦ (ok tt, record ix' { bloom_filter = some f' })
        ]
      ]

  unfoldable pub might_contain : Key → SparseIndex → Result Bool
  unfolding in_use
  might_contain key ix = elim (in_use ix.bloom_filter) [
    | none ↦ ok true
    | some f ↦ might_exist md5 key f
  ]

  unfoldable pub get_offset : Key → SparseIndex → Result (Option ℕ)
  unfolding might_contain search
  get_offset key ix = might_contain key ix >>= λ maybe. elim maybe [
    | false ↦ ok none
    | true ↦ elim (length ix.sorted_keys == 0) [
      | true ↦ ok (some 0)
      | false ↦ search (suc (length ix.sorted_keys)) ix key 0 (length ix.sorted_keys) 0 >>= λ o.
          ok (some o)
    ]
  ]
