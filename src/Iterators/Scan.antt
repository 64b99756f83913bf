-- ===== src/Iterators/Scan.antt =====
-- What `scan` lists.
use yellowdb.Prelude.{
  ◌≡◌, refl, ap, ◌∙◌, Option, none, List, [], ◌∷◌, if◌then◌else◌, Bool-cases, inl, inr,
}
use yellowdb.Errors.{ok}
use yellowdb.Text.{Key}
use yellowdb.Dict.{Dict, lookup, insert}
use yellowdb.Dict.Distinct.{IsDistinct, or_else, insert-IsDistinct}
use yellowdb.Memtable.Sorted.{IsSorted, lookup-IsAbove}
use yellowdb.Memtable.Table
use yellowdb.Memtable.Table.{MemtableEntry, Memtable}
use yellowdb.Memtable.Concurrent.{update, gather, get_all_entries}
use yellowdb.Memtable.Union.{get_all_entries-eq-get}
use yellowdb.Cache.Defs.{Version}
use yellowdb.Compactor.Defs.{Compactor}
use yellowdb.Compactor.Merge.{merge_newer}
use yellowdb.Compactor.Newest.{
  newest_from, newest_from-Covers, newest_from_cases, lookup-merge_newer,
}
use yellowdb.Compactor.Versions.{IsNewest}
use yellowdb.Platform.{Platform}
use yellowdb.Database.Source
use yellowdb.Database.Source.{Source, concurrent, single}
use yellowdb.Database.SourceLaws
use yellowdb.Iterators.Defs.{where_key, scan_levels, from_start, merged_entries, scan_entries}
use yellowdb.Iterators.Shown.{
  shown, held, live-sorted_items, lookup-assign_all, newest_from-where_key,
}

module _ {ℓ} {V : Type ℓ} where
  update-IsDistinct : (d e : Dict V) → IsDistinct d → IsDistinct (update d e)
  unfolding update
  update-IsDistinct d [] s = s
  update-IsDistinct d ((k, v) ∷ e) s =
      update-IsDistinct (insert k v d) e (insert-IsDistinct k v d s)

  sorted-IsDistinct : (d : Dict V) → IsSorted d → IsDistinct d
  sorted-IsDistinct [] s = tt
  sorted-IsDistinct ((k, v) ∷ d) s = (lookup-IsAbove k d s.0, sorted-IsDistinct d s.1)

module _ (p : Platform) where
  gather-IsDistinct :
      (d : Dict MemtableEntry) (ms : List (Memtable p.sd))
      → IsDistinct d
      → IsDistinct (gather p.sd p.hash d ms)
  unfolding gather
  gather-IsDistinct d [] s = s
  gather-IsDistinct d (m ∷ ms) s =
      gather-IsDistinct (update d (Table.get_all p.sd m)) ms (update-IsDistinct d _ s)

  -- The dictionary of all entries has no key twice, and has what `get` returns.
  pub get_all_lem :
      (m : Source p)
      → SourceLaws.IsValid p m
      → IsDistinct (Source.get_all p m)
        × ((j : Key) → Source.get p j m ≡ ok (lookup j (Source.get_all p m)))
  unfolding Source.get_all Source.get get_all_entries Table.get_all Table.get
  get_all_lem (concurrent c) v =
      (gather-IsDistinct [] c.memtables tt, λ j. get_all_entries-eq-get p.sd p.hash c j v)
  get_all_lem (single m) v =
      (sorted-IsDistinct (p.sd.items m.entries) (v.sorted), λ j. ap ok (p.sd.get-items m.entries j))

  pub scan_lem :
      (m : Source p) (c : Compactor) (start_key : Option Key)
      → SourceLaws.IsValid p m
      → IsSorted (scan_entries p m c start_key)
        × ((j : Key)
            → (o : Option MemtableEntry) × (Source.get p j m ≡ ok o)
              × (r : Option Version) × IsNewest j (scan_levels p c 0 10) r
              × (lookup j (scan_entries p m c start_key)
                  ≡ (if from_start p start_key j then shown (or_else (held o) r) else none)))
  unfolding scan_entries merged_entries lookup
  scan_lem m c start_key v =
      let test = from_start p start_key in
      let es = scan_levels p c 0 10 in
      let (d, g) = get_all_lem m v in
      let (s, l) = live-sorted_items (merged_entries p m c start_key) in
      (
        s,
        λ j.
            let all = Source.get_all p m in
            let tables = merge_newer (where_key test es) [] in
            let below : lookup j tables ≡ (if test j then newest_from j es none else none) =
              lookup-merge_newer j (where_key test es) [] ∙ newest_from-where_key test j es none in
            let found : shown (lookup j (merged_entries p m c start_key)) ≡ (
                if test j
                then shown (or_else (held (lookup j all)) (newest_from j es none))
                else none) =
              elim (Bool-cases (test j)) [
                | inl t ↦ ap shown (lookup-assign_all test j all tables d) ∙ rw (t, below, t) refl
                | inr t ↦ ap shown (lookup-assign_all test j all tables d) ∙ rw (t, below, t) refl
              ] in
            (
              lookup j all,
              g j,
              newest_from j es none,
              (newest_from-Covers j es none, newest_from_cases j es none),
              l j ∙ found,
            ),
      )
