-- ===== src/Iterators/Ranged.antt =====
-- What `range` lists, by what stands in the tables.
use yellowdb.Prelude.{
  ℕ, zero, suc, ◌≡◌, refl, sym, ap, ◌∙◌, Bool, true, false, Option, none, some, List, [], ◌∷◌, ◌++◌,
  All, arith, ◌⊎◌, inl, inr, Bool-cases, if◌then◌else◌,
}
use yellowdb.Errors.{ok}
use yellowdb.Text.{Key}
use yellowdb.Text.Order.{key_le, key_lt, key_lt_trans, key_lt_total, key_eq_iff}
use yellowdb.Dict.{lookup}
use yellowdb.Dict.Distinct.{or_else}
use yellowdb.Memtable.Sorted.{IsSorted}
use yellowdb.Memtable.Table.{MemtableEntry}
use yellowdb.Cache.Defs.{Version}
use yellowdb.Wal.Recover.{Entry}
use yellowdb.SsTable.Defs.{SsTable, scan_all}
use yellowdb.SsTable.Files.{range_query}
use yellowdb.SsTable.Lookup.{IsWritten}
use yellowdb.Compactor.Level.{overlaps, get_sstables_for_range}
use yellowdb.Compactor.Merge.{scan_tables}
use yellowdb.Compactor.Versions.{first}
use yellowdb.Compactor.Defs.{Compactor}
use yellowdb.Platform.{Platform}
use yellowdb.Database.Source
use yellowdb.Database.Source.{Source}
use yellowdb.Database.SourceLaws
use yellowdb.Iterators.Defs.{where_key, scan_levels, range_entries}
use yellowdb.Iterators.Shown.{shown, held}
use yellowdb.Iterators.Tables.{
  InKeyOrder, IsReached, where_key-append, where_key-none, range_query_lem,
}
use yellowdb.Iterators.Listed.{within, listed_in, listed_from, listed}
use yellowdb.Iterators.Range.{first-where_key, range_lem}

-- a table that is left out lies before the range or behind it
overlaps_inv :
    (start_key end_key a b : Key) (t : SsTable)
    → t.minimum_key ≡ some a
    → t.maximum_key ≡ some b
    → overlaps start_key end_key t ≡ false
    → (key_lt b start_key ≡ true) ⊎ (key_lt end_key a ≡ true)
unfolding overlaps
overlaps_inv start_key end_key [] [] t p q h = let h' = rw (q, p, overlaps) at h in absurd (cc)
overlaps_inv start_key end_key [] (c ∷ k) t p q h =
    let h' = rw (q, p, overlaps) at h in inl (ground arith)
overlaps_inv start_key end_key (d ∷ j) [] t p q h =
    let h' = rw (q, p, overlaps) at h in inr (ground arith)
overlaps_inv start_key end_key (d ∷ j) (c ∷ k) t p q h =
    let h' = rw (q, p, overlaps) at h in
    elim (Bool-cases (key_lt (c ∷ k) start_key)) [ inl x ↦ inl x | inr x ↦ inr (ground arith) ]

if_inside :
    (b : Bool) (x y : Option Version)
    → (if b then shown (or_else x (if b then y else none)) else none)
      ≡ (if b then shown (or_else x y) else none)
if_inside true x y = refl
if_inside false x y = refl

module _ (p : Platform) (start_key end_key : Key) where
  -- the keys of the table lie between its least and its greatest key
  abbrev IsBounded : SsTable → Type 0
  IsBounded t =
      (scan_all p.z t ≡ [])
      ⊎ ((a : Key) × (b : Key) × (t.minimum_key ≡ some a)
          × (t.maximum_key ≡ some b)
          × All (λ e. (key_le a e.key ≡ true) × (key_le e.key b ≡ true)) (scan_all p.z t))

  -- A table that `write_record` wrote in key order, with its least and greatest key, of which
  -- each record from `start_key` on has an indexed key between `start_key` and its own.
  pub record IsRanged (t : SsTable) : Type 0 where
    pub written : IsWritten p.z p.config p.md5 t
    pub ordered : InKeyOrder (scan_all p.z t)
    pub reached : All (IsReached start_key end_key p t) (scan_all p.z t)
    pub bounded : IsBounded t

  outside_bounds :
      (a b : Key) (es : List Entry)
      → (key_lt b start_key ≡ true) ⊎ (key_lt end_key a ≡ true)
      → All (λ e. (key_le a e.key ≡ true) × (key_le e.key b ≡ true)) es
      → All (λ (e : Entry). within start_key end_key e.key ≡ false) es
  outside_bounds a b [] o h = tt
  outside_bounds a b (e ∷ es) o ((x, y), h) = (
    elim o [
      | inl l ↦
          ground (arith, key_lt_total e.key b, key_lt_trans e.key b start_key, key_eq_iff e.key b)
      | inr l ↦
          ground (arith, key_lt_total a e.key, key_lt_trans end_key a e.key, key_eq_iff a e.key)
    ],
    outside_bounds a b es o h,
  )

  left_out :
      (t : SsTable)
      → IsRanged t
      → overlaps start_key end_key t ≡ false
      → where_key (within start_key end_key) (scan_all p.z t) ≡ []
  unfolding where_key
  left_out t r h = elim r.bounded [
    | inl e ↦ rw e refl
    | inr (a, b, least, greatest, all) ↦
        where_key-none (within start_key end_key) (scan_all p.z t) (
          outside_bounds a b (scan_all p.z t)
            (overlaps_inv start_key end_key a b t least greatest h) all)
  ]

  listed_in-where_key :
      (ts : List SsTable)
      → All IsRanged ts
      → listed_in p start_key end_key (get_sstables_for_range start_key end_key ts)
        ≡ where_key (within start_key end_key) (scan_tables p.z ts)
  unfolding listed_in get_sstables_for_range scan_tables where_key
  listed_in-where_key [] a = refl
  listed_in-where_key (t ∷ ts) (r, a) =
      let ih = listed_in-where_key ts a in
      let split =
        where_key-append (within start_key end_key) (scan_all p.z t) (scan_tables p.z ts) in
      elim (Bool-cases (overlaps start_key end_key t)) [
        | inl o ↦ rw o (
            ap (◌++◌ (range_query p.z start_key end_key t)) ih
            ∙ ap (λ es. es ++ where_key (within start_key end_key) (scan_tables p.z ts))
                (range_query_lem start_key end_key p t r.written r.ordered r.reached)
            ∙ sym split)
        | inr o ↦ rw o (
            ih
            ∙ ap (λ es. es ++ where_key (within start_key end_key) (scan_tables p.z ts))
                (sym (left_out t r o))
            ∙ sym split)
      ]

  listed_from-where_key :
      (c : Compactor) (n rest : ℕ)
      → ((m : ℕ) → All IsRanged (c.levels m))
      → listed_from p start_key end_key c n rest
        ≡ where_key (within start_key end_key) (scan_levels p c n rest)
  unfolding listed_from scan_levels where_key
  listed_from-where_key c n zero a = refl
  listed_from-where_key c n (suc rest) a =
      ap
        (◌++◌
          (listed_in p start_key end_key (get_sstables_for_range start_key end_key (c.levels n))))
        (listed_from-where_key c (suc n) rest a)
      ∙ ap (λ es. es ++ where_key (within start_key end_key) (scan_levels p c (suc n) rest))
          (listed_in-where_key (c.levels n) (a n))
      ∙ sym (
          where_key-append (within start_key end_key) (scan_tables p.z (c.levels n))
            (scan_levels p c (suc n) rest))

  -- Take a valid memtable and tables that write_record wrote in key order, with their least and
  -- greatest key, where each record from start_key on has an indexed key between start_key and its
  -- own. The entries of a range are in strictly increasing key order; for a key from start_key to
  -- end_key they have the value of the memtable's entry, or if there is none that of the first
  -- record for it in the files of the tables, level by level, unless it is a deletion; and no other
  -- key is listed.
  pub range-eq-scanned :
      (m : Source p) (c : Compactor)
      → SourceLaws.IsValid p m
      → ((n : ℕ) → All IsRanged (c.levels n))
      → IsSorted (range_entries p m c start_key end_key)
        × ((j : Key)
            → (o : Option MemtableEntry) × (Source.get p j m ≡ ok o)
              × (lookup j (range_entries p m c start_key end_key) ≡ (
                  if within start_key end_key j
                  then shown
                      (or_else (held o) (first j (scan_levels p c 0 p.config.compaction_threshold)))
                  else none)))
  unfolding listed
  range-eq-scanned m c v a =
      let (s, l) = range_lem p start_key end_key m c v in
      let es = scan_levels p c 0 p.config.compaction_threshold in
      (
        s,
        λ j.
            let (o, g, e) = l j in
            let f : first j (listed p start_key end_key c)
                ≡ (if within start_key end_key j then first j es else none) =
              ap (first j) (listed_from-where_key c 0 p.config.compaction_threshold a)
              ∙ first-where_key (within start_key end_key) j es in
            (
              o,
              g,
              e
                  ∙ ap
                      (λ r. if within start_key end_key j then shown (or_else (held o) r) else none)
                      f
                  ∙ if_inside (within start_key end_key j) (held o) (first j es),
            ),
      )
