-- ===== src/Index/Laws.antt =====
-- The invariant of the index and `add_key`.
use yellowdb.Prelude.{
  ℕ, ◌≡◌, refl, Bool, true, false, Option, none, some, arith, if◌then◌else◌, Bool-cases, inl, inr,
  Option-cases, ◌∷◌, [], ◌++◌,
}
use yellowdb.Errors.{Result-cases}
use yellowdb.Config.{Config}
use yellowdb.Text.{Key, Bytes}
use yellowdb.Text.Order.{key_eq_iff}
use yellowdb.Dict.{lookup, insert, lookup-insert}
use yellowdb.Bloom.Defs.{add}
use yellowdb.Index.Keys.{has, sort, IsAscending, sort-IsAscending, has-sort_append}
use yellowdb.Index.Defs.{SparseIndex, new, in_use, add_key}

abbrev pub is_some {ℓ} : {A : Type ℓ} → Option A → Bool
is_some none = false
is_some (some a) = true

-- The sorted keys ascend and are the keys of the dictionary.
pub record IsValid (ix : SparseIndex) : Type 0 where
  pub ascending : IsAscending ix.sorted_keys
  pub same : (k : Key) → has k ix.sorted_keys ≡ is_some (lookup k ix.keys)

pub new-IsValid : (config : Config) → IsValid (new config)
unfolding new has lookup
new-IsValid config = record { ascending = tt; same = λ k. refl }

-- the first two statements of `add_key`
abbrev pub enter : Key → ℕ → SparseIndex → SparseIndex
enter key offset ix = record ix {
  keys = insert key offset ix.keys;
  sorted_keys =
      if has key ix.sorted_keys then ix.sorted_keys else sort (ix.sorted_keys ++ key ∷ []);
}

enter-IsValid :
    (key : Key) (offset : ℕ) (ix : SparseIndex) → IsValid ix → IsValid (enter key offset ix)
enter-IsValid key offset ix v = elim (Bool-cases (has key ix.sorted_keys)) [
  | inl p ↦ rw p (record {
    ascending = v.ascending;
    same =
        λ k. rw (lookup-insert key k offset ix.keys) (ground (arith, key_eq_iff key k, v.same k));
  })
  | inr p ↦ rw p (record {
    ascending = sort-IsAscending (ix.sorted_keys ++ key ∷ []);
    same = λ k.
        rw (lookup-insert key k offset ix.keys, has-sort_append k key ix.sorted_keys)
          (ground (arith, v.same k));
  })
]

module _ (md5 : Bytes → ℕ) where
  -- `add_key` enters the key, whatever the Bloom filter does.
  pub add_key-enter :
      (key : Key) (offset : ℕ) (ix : SparseIndex)
      → ((add_key md5 key offset ix).1.keys ≡ (enter key offset ix).keys)
        × ((add_key md5 key offset ix).1.sorted_keys ≡ (enter key offset ix).sorted_keys)
  unfolding add_key
  add_key-enter key offset ix = elim (Option-cases (in_use ix.bloom_filter)) [
    | inl p ↦ rw (p, add_key) (refl, refl)
    | inr (f, p) ↦
        rw (p, add_key)
          (elim (Result-cases (add md5 key f)) [
            | inl (e, q) ↦ rw q (refl, refl)
            | inr (f', q) ↦ rw q (refl, refl)
          ])
  ]

  -- A call of add_key on a valid index keeps the sorted keys in ascending order and equal to the
  -- keys of the dictionary, also when the Bloom filter raises.
  pub add_key-IsValid :
      (key : Key) (offset : ℕ) (ix : SparseIndex)
      → IsValid ix
      → IsValid (add_key md5 key offset ix).1
  add_key-IsValid key offset ix v =
      let (p, q) = add_key-enter key offset ix in
      let w = enter-IsValid key offset ix v in
      record { ascending = rw q w.ascending; same = λ k. rw (p, q) (w.same k) }
