-- ===== src/Iterators/Listed.antt =====
-- The entries of a range that the tables hold, in the order in which `range_search` meets them.
use yellowdb.Prelude.{
  ℕ, zero, suc, ◌≡◌, refl, sym, ap, ◌∙◌, Bool, true, false, ◌&&◌, Option, none, some, List, [], ◌∷◌,
  ◌++◌, All, arith, drop, length, Bool-cases, inl, inr,
}
use yellowdb.Errors.{Result-cases}
use yellowdb.Text.{Key, Bytes}
use yellowdb.Text.Order.{key_eq, key_eq_iff, key_lt, key_le}
use yellowdb.Dict.{Dict, lookup}
use yellowdb.Dict.Distinct.{or_else}
use yellowdb.Cache.Defs.{Version}
use yellowdb.Serializer.Read.{read_record_from_file}
use yellowdb.Wal.Recover.{Entry}
use yellowdb.Index.Defs as Index
use yellowdb.SsTable.Defs.{SsTable, bytes_of}
use yellowdb.SsTable.Files.{range_query, collect_range}
use yellowdb.Compactor.Level.{get_sstables_for_range}
use yellowdb.Compactor.Merge.{merge_absent, entries_of}
use yellowdb.Compactor.Newest.{lookup-merge_absent}
use yellowdb.Compactor.Versions.{first}
use yellowdb.Compactor.Defs.{Compactor, range_tables, range_levels, range_search}
use yellowdb.Platform.{Platform}

abbrev pub within : Key → Key → Key → Bool
within start_key end_key key = key_le start_key key && key_le key end_key

pub or_else_assoc : (a b c : Option Version) → or_else (or_else a b) c ≡ or_else a (or_else b c)
or_else_assoc none b c = refl
or_else_assoc (some v) b c = refl

pub first-append :
    (k : Key) (es fs : List Entry) → first k (es ++ fs) ≡ or_else (first k es) (first k fs)
unfolding first
first-append k [] fs = refl
first-append k (e ∷ es) fs = elim (Bool-cases (key_eq e.key k)) [
  | inl q ↦ rw q refl
  | inr q ↦ rw q (first-append k es fs)
]

-- A key that fails the test of all entries is not among them.
pub first-All :
    (test : Key → Bool) (k : Key) (es : List Entry)
    → All (λ (e : Entry). test e.key ≡ true) es
    → test k ≡ false
    → first k es ≡ none
unfolding first
first-All test k [] a f = refl
first-All test k (e ∷ es) (t, a) f =
    ground (arith, key_eq_iff e.key k, first-All test k es a f, t, f)

pub first-entries_of : (k : Key) (d : Dict Version) → first k (entries_of d) ≡ lookup k d
unfolding first entries_of lookup
first-entries_of k [] = refl
first-entries_of k ((j, v) ∷ d) = elim (Bool-cases (key_eq j k)) [
  | inl q ↦ rw q refl
  | inr q ↦ rw q (first-entries_of k d)
]

append-within :
    (test : Key → Bool) (es fs : List Entry)
    → All (λ (e : Entry). test e.key ≡ true) es
    → All (λ (e : Entry). test e.key ≡ true) fs
    → All (λ (e : Entry). test e.key ≡ true) (es ++ fs)
append-within test [] fs a b = b
append-within test (e ∷ es) fs (t, a) b = (t, append-within test es fs a b)

module _ (p : Platform) (start_key end_key : Key) where
  -- the entries of the range in the tables of a level
  unfoldable pub listed_in : List SsTable → List Entry
  listed_in [] = []
  listed_in (t ∷ ts) = range_query p.z start_key end_key t ++ listed_in ts

  -- those of the levels from `n` on, for so many levels
  unfoldable pub listed_from : Compactor → ℕ → ℕ → List Entry
  unfolding listed_in
  listed_from c n zero = []
  listed_from c n (suc rest) =
      listed_in (get_sstables_for_range start_key end_key (c.levels n))
      ++ listed_from c (suc n) rest

  unfoldable pub listed : Compactor → List Entry
  unfolding listed_from
  listed c = listed_from c 0 p.config.compaction_threshold

  lookup-range_tables :
      (k : Key) (ts : List SsTable) (d : Dict Version)
      → lookup k (range_tables p start_key end_key ts d)
        ≡ or_else (lookup k d) (first k (listed_in ts))
  unfolding range_tables listed_in first
  lookup-range_tables k [] d = ground arith
  lookup-range_tables k (t ∷ ts) d =
      let es = range_query p.z start_key end_key t in
      lookup-range_tables k ts (merge_absent es d)
      ∙ ap (λ o. or_else o (first k (listed_in ts))) (lookup-merge_absent k es d)
      ∙ or_else_assoc (lookup k d) (first k es) (first k (listed_in ts))
      ∙ ap (or_else (lookup k d)) (sym (first-append k es (listed_in ts)))

  lookup-range_levels :
      (k : Key) (c : Compactor) (n rest : ℕ) (d : Dict Version)
      → lookup k (range_levels p start_key end_key c n rest d)
        ≡ or_else (lookup k d) (first k (listed_from c n rest))
  unfolding range_levels listed_from first
  lookup-range_levels k c n zero d = ground arith
  lookup-range_levels k c n (suc rest) d =
      let ts = get_sstables_for_range start_key end_key (c.levels n) in
      lookup-range_levels k c (suc n) rest (range_tables p start_key end_key ts d)
      ∙ ap (λ o. or_else o (first k (listed_from c (suc n) rest))) (lookup-range_tables k ts d)
      ∙ or_else_assoc (lookup k d) (first k (listed_in ts)) (first k (listed_from c (suc n) rest))
      ∙ ap (or_else (lookup k d)) (sym (first-append k (listed_in ts) (listed_from c (suc n) rest)))

  -- A key has the first of its entries.
  pub lookup-range_search :
      (k : Key) (c : Compactor) → lookup k (range_search p start_key end_key c) ≡ first k (listed c)
  unfolding range_search listed lookup
  lookup-range_search k c = lookup-range_levels k c 0 p.config.compaction_threshold []

  collect_range-within :
      (fuel : ℕ) (s : Bytes)
      → All
          (λ (e : Entry). within start_key end_key e.key ≡ true)
          (collect_range p.z start_key end_key fuel s)
  unfolding collect_range
  collect_range-within zero s = tt
  collect_range-within (suc fuel) s = elim (Result-cases (read_record_from_file p.z s)) [
    | inl (x, q) ↦ rw (q, collect_range) tt
    | inr ((d, rest), q) ↦
        rw (q, collect_range)
          (let ih = collect_range-within fuel rest in
            elim (Bool-cases (key_lt d.key start_key)) [
              | inl a ↦ rw a ih
              | inr a ↦ elim (Bool-cases (key_lt end_key d.key)) [
                | inl b ↦ rw (a, b) tt
                | inr b ↦ rw (a, b) (rw (a, b) refl, ih)
              ]
            ])
  ]

  range_query-within :
      (t : SsTable)
      → All
          (λ (e : Entry). within start_key end_key e.key ≡ true)
          (range_query p.z start_key end_key t)
  unfolding range_query
  range_query-within t = elim (Result-cases (Index.get_key_range start_key end_key t.index)) [
    | inl (x, q) ↦ rw (q, range_query) tt
    | inr ((o, x), q) ↦
        let s = drop o (bytes_of t.content) in
        rw (q, range_query) (collect_range-within (suc (length s)) s)
  ]

  listed_in-within :
      (ts : List SsTable)
      → All (λ (e : Entry). within start_key end_key e.key ≡ true) (listed_in ts)
  unfolding listed_in
  listed_in-within [] = tt
  listed_in-within (t ∷ ts) =
      append-within (within start_key end_key) _ _ (range_query-within t) (listed_in-within ts)

  listed_from-within :
      (c : Compactor) (n rest : ℕ)
      → All (λ (e : Entry). within start_key end_key e.key ≡ true) (listed_from c n rest)
  unfolding listed_from
  listed_from-within c n zero = tt
  listed_from-within c n (suc rest) =
      append-within (within start_key end_key) _ _ (listed_in-within _)
        (listed_from-within c (suc n) rest)

  pub listed-within :
      (c : Compactor) → All (λ (e : Entry). within start_key end_key e.key ≡ true) (listed c)
  unfolding listed
  listed-within c = listed_from-within c 0 p.config.compaction_threshold
