-- ===== src/Memtable/Range.antt =====
-- `range_query` and `get_sorted_entries` against the entries in the order of their keys.
use yellowdb.Prelude.{◌≡◌, refl, ap, ◌&&◌, some, [], ◌∷◌, map, All, Bool-cases, inl, inr}
use yellowdb.Text.{Key}
use yellowdb.Text.Order.{key_le, key_eq_refl, key_lt→ne}
use yellowdb.Dict.{Dict, lookup}
use yellowdb.Memtable.Sorted.{IsAbove, IsSorted, between}
use yellowdb.Memtable.SortedDict.{SortedDict}
use yellowdb.Memtable.Table.{MemtableEntry, Memtable, get, collect, range_query, get_sorted_entries}
use yellowdb.Memtable.Laws.{IsValid}

module _ {ℓ} {V : Type ℓ} where
  -- each pair of the second list is what the first one has for its key
  abbrev Found : Dict V → Dict V → Type ℓ
  Found whole = All (λ e. lookup e.0 whole ≡ some e.1)

  Found-cons :
      (k : Key) (v : V) (whole d : Dict V) → IsAbove k d → Found whole d → Found ((k, v) ∷ whole) d
  Found-cons k v whole [] a f = tt
  Found-cons k v whole ((j, w) ∷ d) a f =
      (unfold lookup in rw (key_lt→ne k j a.0) f.0, Found-cons k v whole d a.1 f.1)

  Found-self : (d : Dict V) → IsSorted d → Found d d
  Found-self [] s = tt
  Found-self ((k, v) ∷ d) s =
      (unfold lookup in rw (key_eq_refl k) refl, Found-cons k v d d s.0 (Found-self d s.1))

  Found-between : (lo hi : Key) (whole d : Dict V) → Found whole d → Found whole (between lo hi d)
  unfolding between
  Found-between lo hi whole [] f = tt
  Found-between lo hi whole ((k, v) ∷ d) f = elim (Bool-cases (key_le lo k && key_le k hi)) [
    | inl p ↦ rw p (f.0, Found-between lo hi whole d f.1)
    | inr p ↦ rw p (Found-between lo hi whole d f.1)
  ]

module _ (sd : SortedDict MemtableEntry) (m : Memtable sd) where
  collect-Found :
      (d : Dict MemtableEntry)
      → Found (sd.items m.entries) d
      → collect sd (map (λ e. e.0) d) m ≡ map (λ e. e.1) d
  unfolding collect
  collect-Found [] f = refl
  collect-Found ((k, e) ∷ d) f = rw (sd.get-items) (rw (f.0) (ap (◌∷◌ e) (collect-Found d f.1)))

  -- On a valid memtable range_query returns the sorted entries filtered by start_key <= key <=
  -- end_key, in key order, with no KeyError cutting it short.
  pub range_query-eq-between :
      (start_key end_key : Key)
      → IsValid sd m
      → range_query sd start_key end_key m
        ≡ map (λ e. e.1) (between start_key end_key (get_sorted_entries sd m))
  unfolding range_query get_sorted_entries
  range_query-eq-between start_key end_key v = rw (sd.irange-items) (
      collect-Found (between start_key end_key (sd.items m.entries)) (
        Found-between start_key end_key (sd.items m.entries) (sd.items m.entries)
          (Found-self (sd.items m.entries) v.sorted)))

  -- On a valid memtable get_sorted_entries returns the entries in strictly increasing key order,
  -- and these hold for each key what get returns.
  pub get_sorted_entries-IsSorted :
      IsValid sd m
      → IsSorted (get_sorted_entries sd m)
        × ((k : Key) → lookup k (get_sorted_entries sd m) ≡ get sd k m)
  unfolding get_sorted_entries get
  get_sorted_entries-IsSorted v = (v.sorted, λ k. rw (sd.get-items) refl)
