-- ===== src/Index/Complete.antt =====
-- The Bloom filter of the index and its keys.
use yellowdb.Prelude.{
  ℕ, ◌≡◌, refl, true, false, Option, none, some, arith, length, Bool-cases, Option-cases, inl, inr,
  ◌⊎◌, ◌∙◌, sym, Bool, ◌<◌, false, if◌then◌else◌, ◌==◌, ap,
}
use yellowdb.Errors.{ok, raise, Result-cases}
use yellowdb.Text.{Key, Bytes}
use yellowdb.Text.Order.{key_le, key_lt_irrefl, key_eq, key_eq_iff, key_lt_total}
use yellowdb.Dict.{lookup, lookup-insert}
use yellowdb.Bloom.Defs.{BloomFilter, add, might_exist, len}
use yellowdb.Bloom.Laws
use yellowdb.Bloom.Laws.{add-IsValid}
use yellowdb.Bloom.Membership.{might_exist-add, might_exist-add_mono}
use yellowdb.Index.Defs.{SparseIndex, in_use, add_key, get_offset, might_contain}
use yellowdb.Config.{Config}
use yellowdb.Index.Defs
use yellowdb.Index.Laws.{IsValid, new-IsValid, add_key-enter, add_key-IsValid}
use yellowdb.Index.Lookup.{get_offset_lem}

in_use_inv : (b : Option BloomFilter) {f : BloomFilter} → in_use b ≡ some f → b ≡ some f
unfolding in_use
in_use_inv none h = absurd (cc)
in_use_inv (some g) h = ground arith

in_use-IsValid : (f : BloomFilter) → Laws.IsValid f → in_use (some f) ≡ some f
unfolding in_use len
in_use-IsValid f v =
    let p : (length f.bits == 0) ≡ false = ground (arith, v.sized, v.positive) in rw p refl

-- what the constructor puts before the keys
in_use-made :
    (enabled : Bool) (g f : BloomFilter)
    → (0 < length g.bits → Laws.IsValid g)
    → in_use (if enabled then some g else none) ≡ some f
    → Laws.IsValid f
unfolding in_use len
in_use-made false g f v h = absurd (cc)
in_use-made true g f v h = elim (Bool-cases (length g.bits == 0)) [
  | inl p ↦ let e : in_use (some g) ≡ none = rw (p, in_use, len) refl in absurd (cc)
  | inr p ↦
      let h' = in_use_inv (some g) h in
      let e : g ≡ f = ground arith in rw (← e) (v (ground (arith, p)))
]

key_le_antisym : (a b : Key) → key_le a b ≡ true → key_le b a ≡ true → a ≡ b
key_le_antisym a b h k = ground (arith, key_lt_total a b, key_eq_iff a b)

module _ (md5 : Bytes → ℕ) where
  might_contain-some :
      (ix : SparseIndex) (k : Key) {f : BloomFilter}
      → in_use ix.bloom_filter ≡ some f
      → might_contain md5 k ix ≡ might_exist md5 k f
  unfolding might_contain
  might_contain-some ix k p = rw (p, might_contain) refl

  might_contain-none :
      (ix : SparseIndex) (k : Key)
      → in_use ix.bloom_filter ≡ none
      → might_contain md5 k ix ≡ ok true
  unfolding might_contain
  might_contain-none ix k p = rw (p, might_contain) refl

  -- The index is valid, its Bloom filter too, and the filter has every indexed key.
  pub record IsComplete (ix : SparseIndex) : Type 0 where
    pub valid : IsValid ix
    pub filter : (f : BloomFilter) → in_use ix.bloom_filter ≡ some f → Laws.IsValid f
    pub known : (k : Key) (o : ℕ) → lookup k ix.keys ≡ some o → might_contain md5 k ix ≡ ok true

  -- An index that the constructor makes is in order, also without a Bloom filter or with one of
  -- size 0.
  pub new-IsComplete : (config : Config) → IsComplete (Defs.new config)
  unfolding Defs.new lookup
  new-IsComplete config = record {
    valid = new-IsValid config;
    filter =
        λ f h. in_use-made config.enable_bloom_filter _ f (Laws.new-IsValid config none none) h;
    known = λ k o h. absurd (cc);
  }

  -- what an `add_key` that does not raise does with the filter
  add_key_inv :
      (key : Key) (offset : ℕ) (ix : SparseIndex)
      → (add_key md5 key offset ix).0 ≡ ok tt
      → ((in_use ix.bloom_filter ≡ none)
          × ((add_key md5 key offset ix).1.bloom_filter ≡ ix.bloom_filter))
        ⊎ ((f : BloomFilter) × (f' : BloomFilter) × (in_use ix.bloom_filter ≡ some f)
            × (add md5 key f ≡ ok f')
            × ((add_key md5 key offset ix).1.bloom_filter ≡ some f'))
  unfolding add_key
  add_key_inv key offset ix h = elim (Option-cases (in_use ix.bloom_filter)) [
    | inl p ↦ inl (p, rw (p, add_key) refl)
    | inr (f, p) ↦ elim (Result-cases (add md5 key f)) [
      | inl (e, q) ↦
          let r : (add_key md5 key offset ix).0 ≡ raise e = rw (p, add_key, q) refl in absurd (cc)
      | inr (f', q) ↦ inr (f, f', p, q, rw (p, add_key, q) refl)
    ]
  ]

  -- On a valid index whose Bloom filter is valid and has every indexed key, a call of add_key that
  -- does not raise keeps all of this.
  pub add_key-IsComplete :
      (key : Key) (offset : ℕ) (ix : SparseIndex)
      → IsComplete ix
      → (add_key md5 key offset ix).0 ≡ ok tt
      → IsComplete (add_key md5 key offset ix).1
  add_key-IsComplete key offset ix c h = elim (add_key_inv key offset ix h) [
    | inl (p, q) ↦
        let ix' = (add_key md5 key offset ix).1 in
        record {
          valid = add_key-IsValid md5 key offset ix c.valid;
          filter = λ f r. c.filter f (ap in_use (sym q) ∙ r);
          known = λ k o r. might_contain-none ix' k (ap in_use q ∙ p);
        }
    | inr (f, f', p, a, q) ↦
        let ix' = (add_key md5 key offset ix).1 in
        let v' = add-IsValid md5 key (c.filter f p) a in
        let p' : in_use ix'.bloom_filter ≡ some f' = ap in_use q ∙ in_use-IsValid f' v' in
        record {
          valid = add_key-IsValid md5 key offset ix c.valid;
          filter = λ g r. let e : f' ≡ g = ground arith in rw (← e) v';
          known = λ k o r. might_contain-some ix' k p' ∙ elim (Bool-cases (key_eq key k)) [
            | inl b ↦
                let e : key ≡ k = (key_eq_iff key k).0 b in
                rw (← e) (might_exist-add md5 key (c.filter f p) a)
            | inr b ↦
                let (s, _) = add_key-enter md5 key offset ix in
                let l = lookup-insert key k offset ix.keys in
                let old : lookup k ix.keys ≡ some o = let m = ap (lookup k) s ∙ l in ground arith in
                might_exist-add_mono md5 key k (c.filter f p) a
                  (sym (might_contain-some ix k p) ∙ c.known k o old)
          ];
        }
  ]

  -- On a valid index whose Bloom filter is valid and has every indexed key, get_offset of an
  -- indexed key returns exactly its offset.
  pub get_offset-known :
      (key : Key) (offset : ℕ) (ix : SparseIndex)
      → IsComplete ix
      → lookup key ix.keys ≡ some offset
      → get_offset md5 key ix ≡ ok (some offset)
  get_offset-known key offset ix c h =
      let (o, g, floor) = get_offset_lem ix key md5 c.valid (c.known key offset h) in
      let self : key_le key key ≡ true = ground (arith, key_lt_irrefl key) in
      elim floor [
        | inl (z, above) ↦ let n = above key offset h in absurd (cc)
        | inr (x, l, le, greatest) ↦
            let ge = greatest key offset h self in
            let e : key ≡ x = key_le_antisym key x ge le in
            let same : o ≡ offset = let t = rw e at h in ground arith in rw (← same) g
      ]
