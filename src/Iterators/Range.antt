-- ===== src/Iterators/Range.antt =====
-- What `range` lists.
use yellowdb.Prelude.{
  ◌≡◌, refl, sym, ap, ◌∙◌, Bool, true, false, ◌&&◌, Option, none, List, [], ◌∷◌, map, arith,
  if◌then◌else◌, Bool-cases, inl, inr,
}
use yellowdb.Errors.{ok, ok_inj}
use yellowdb.Text.{Key}
use yellowdb.Text.Order.{key_eq, key_eq_iff, key_le}
use yellowdb.Dict.{Dict, lookup}
use yellowdb.Dict.Distinct.{or_else}
use yellowdb.Memtable.Sorted.{IsSorted, between}
use yellowdb.Memtable.Table
use yellowdb.Memtable.Table.{MemtableEntry, Memtable}
use yellowdb.Memtable.Laws.{IsFiled}
use yellowdb.Memtable.Range.{range_query-eq-between}
use yellowdb.Cache.Defs.{Version}
use yellowdb.Wal.Recover.{Entry}
use yellowdb.Compactor.Defs.{Compactor, range_search}
use yellowdb.Compactor.Merge.{merge_absent, entries_of}
use yellowdb.Compactor.Newest.{lookup-merge_absent}
use yellowdb.Compactor.Versions.{first}
use yellowdb.Platform.{Platform}
use yellowdb.Database.Source
use yellowdb.Database.Source.{Source, concurrent, single}
use yellowdb.Database.SourceLaws
use yellowdb.Iterators.Defs.{to_entry, where_key, memtable_range, entries_dict, range_entries}
use yellowdb.Iterators.Shown.{shown, held, live-sorted_items}
use yellowdb.Iterators.Scan.{get_all_lem}
use yellowdb.Iterators.Listed.{
  within, first-All, first-entries_of, listed, lookup-range_search, listed-within,
}

pub first-where_key :
    (test : Key → Bool) (k : Key) (es : List Entry)
    → first k (where_key test es) ≡ (if test k then first k es else none)
unfolding first where_key
first-where_key test k [] = ground arith
first-where_key test k (e ∷ es) = elim (Bool-cases (key_eq e.key k)) [
  | inl q ↦
      let same : e.key ≡ k = (key_eq_iff e.key k).0 q in
      elim (Bool-cases (test k)) [
        | inl t ↦ let t' : test e.key ≡ true = rw same t in rw (t', t) (rw (first, q) refl)
        | inr t ↦
            let t' : test e.key ≡ false = rw same t in
            rw (t', t) (first-where_key test k es ∙ rw t refl)
      ]
  | inr q ↦ elim (Bool-cases (test e.key)) [
    | inl t ↦ rw (t, q) (first-where_key test k es)
    | inr t ↦ rw (t, q) (first-where_key test k es)
  ]
]

first-to_entry : (k : Key) (d : Dict MemtableEntry) → first k (map to_entry d) ≡ held (lookup k d)
unfolding first lookup
first-to_entry k [] = refl
first-to_entry k ((j, e) ∷ d) = elim (Bool-cases (key_eq j k)) [
  | inl q ↦ rw q refl
  | inr q ↦ rw q (first-to_entry k d)
]

lookup-between :
    (lo hi k : Key) (d : Dict MemtableEntry)
    → lookup k (between lo hi d) ≡ (if within lo hi k then lookup k d else none)
unfolding lookup between
lookup-between lo hi k [] = ground arith
lookup-between lo hi k ((j, e) ∷ d) = ground (arith, lookup-between lo hi k d, key_eq_iff j k)

-- An entry stands under its own key.
filed_entries :
    (lo hi : Key) (d : Dict MemtableEntry)
    → IsFiled d
    → map (λ (e : MemtableEntry). to_entry (e.key, e)) (map (λ e. e.1) (between lo hi d))
      ≡ map to_entry (between lo hi d)
unfolding between
filed_entries lo hi [] f = refl
filed_entries lo hi ((k, e) ∷ d) (same, _, f) = elim (Bool-cases (key_le lo k && key_le k hi)) [
  | inl q ↦
      rw (q, filed_entries lo hi d f)
        (ap (λ j. to_entry (j, e) ∷ map to_entry (between lo hi d)) same)
  | inr q ↦ rw q (filed_entries lo hi d f)
]

if_held :
    (b : Bool) (o : Option MemtableEntry)
    → (if b then held (if b then o else none) else none) ≡ (if b then held o else none)
if_held true o = refl
if_held false o = refl

outside :
    (b : Bool) (x y : Option Version)
    → (b ≡ false → y ≡ none)
    → shown (or_else (if b then x else none) y) ≡ (if b then shown (or_else x y) else none)
outside true x y h = refl
outside false x y h = ap shown (h refl)

module _ (p : Platform) (start_key end_key : Key) where
  first-memtable_range :
      (m : Source p) (k : Key) (o : Option MemtableEntry)
      → SourceLaws.IsValid p m
      → Source.get p k m ≡ ok o
      → first k (where_key (within start_key end_key) (memtable_range p m start_key end_key))
        ≡ (if within start_key end_key k then held o else none)
  unfolding memtable_range Source.get Table.get Table.get_sorted_entries
  first-memtable_range (concurrent c) k o v h =
      let (_, g) = get_all_lem p (concurrent c) v in
      let e : lookup k (Source.get_all p (concurrent c)) ≡ o = ok_inj (sym (g k) ∙ h) in
      first-where_key (within start_key end_key) k (map to_entry (Source.get_all p (concurrent c)))
      ∙ rw (first-to_entry k (Source.get_all p (concurrent c)), e) refl
  first-memtable_range (single m) k o v h =
      let items = p.sd.items m.entries in
      let all : map (λ (x : MemtableEntry). to_entry (x.key, x))
            (Table.range_query p.sd start_key end_key m)
          ≡ map to_entry (between start_key end_key items) =
        ap (map (λ (x : MemtableEntry). to_entry (x.key, x)))
          (range_query-eq-between p.sd m start_key end_key v)
        ∙ filed_entries start_key end_key items v.filed in
      let found : lookup k items ≡ o = sym (p.sd.get-items m.entries k) ∙ ok_inj h in
      first-where_key (within start_key end_key) k _
      ∙ ap (λ es. if within start_key end_key k then first k es else none) all
      ∙ ap (λ x. if within start_key end_key k then x else none)
          (first-to_entry k (between start_key end_key items)
            ∙ ap held (lookup-between start_key end_key k items))
      ∙ if_held (within start_key end_key k) (lookup k items)
      ∙ ap (λ x. if within start_key end_key k then held x else none) found

  -- With a valid memtable the entries of a range are in strictly increasing key order; for a key
  -- from start_key to end_key they have the value of the memtable's entry, or if there is none that
  -- of the first entry that range_query lists for it in the tables, level by level, unless it is a
  -- deletion; and no other key is listed.
  pub range_lem :
      (m : Source p) (c : Compactor)
      → SourceLaws.IsValid p m
      → IsSorted (range_entries p m c start_key end_key)
        × ((j : Key)
            → (o : Option MemtableEntry) × (Source.get p j m ≡ ok o)
              × (lookup j (range_entries p m c start_key end_key) ≡ (
                  if within start_key end_key j
                  then shown (or_else (held o) (first j (listed p start_key end_key c)))
                  else none)))
  unfolding range_entries entries_dict lookup
  range_lem m c v =
      let (s, l) = live-sorted_items (entries_dict p m c start_key end_key) in
      (
        s,
        λ j.
            let (o, g) = SourceLaws.get-ok p j m v in
            let mem = where_key (within start_key end_key) (memtable_range p m start_key end_key) in
            let tables = entries_of (range_search p start_key end_key c) in
            let e : lookup j (entries_dict p m c start_key end_key)
                ≡ or_else (if within start_key end_key j then held o else none)
                    (first j (listed p start_key end_key c)) =
              lookup-merge_absent j tables (merge_absent mem [])
              ∙ rw
                  (
                    lookup-merge_absent j mem [],
                    first-memtable_range m j o v g,
                    first-entries_of j (range_search p start_key end_key c),
                    lookup-range_search p start_key end_key j c,
                  )
                  refl in
            (
              o,
              g,
              l j
                  ∙ ap shown e
                  ∙ outside (within start_key end_key j) (held o)
                      (first j (listed p start_key end_key c))
                      (λ f.
                        first-All (within start_key end_key) j (listed p start_key end_key c)
                          (listed-within p start_key end_key c) f),
            ),
      )
