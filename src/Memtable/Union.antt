-- ===== src/Memtable/Union.antt =====
-- `get_all_entries`: the shards merged into one dictionary.
use yellowdb.Prelude.{ℕ, zero, suc, ◌+◌, ◌<◌, ◌≡◌, refl, none, List, [], ◌∷◌, All, arith}
use yellowdb.Prelude.Int.{ℤ}
use yellowdb.Errors.{ok}
use yellowdb.Text.{Key}
use yellowdb.Text.Order.{key_eq_iff}
use yellowdb.Dict.Distinct.{or_else}
use yellowdb.Dict.{Dict, lookup, insert, lookup-insert}
use yellowdb.Memtable.Sorted.{IsSorted, lookup-IsAbove}
use yellowdb.Memtable.SortedDict.{SortedDict}
use yellowdb.Memtable.Table
use yellowdb.Memtable.Table.{MemtableEntry, Memtable}
use yellowdb.Memtable.Concurrent.{update, ConcurrentMemtables, get, gather, get_all_entries}
use yellowdb.Items.{item}
use yellowdb.Memtable.Shards.{home, Shards, IsValid}
use yellowdb.Memtable.Views.{get-home}

module _ {ℓ} {V : Type ℓ} where
  -- `d.update(e)`: the pairs of `e` win.
  pub lookup-update :
      (k : Key) (d e : Dict V)
      → IsSorted e
      → lookup k (update d e) ≡ or_else (lookup k e) (lookup k d)
  unfolding update lookup
  lookup-update k d [] s = refl
  lookup-update k d ((j, v) ∷ e) s = ground (
    arith,
    lookup-update k (insert j v d) e s.1,
    lookup-insert j k v d,
    key_eq_iff j k,
    lookup-IsAbove j e s.0,
  )

  absent :
      (P : Key → Type 0) (k : Key) (d : Dict V) → ¬ P k → All (λ e. P e.0) d → lookup k d ≡ none
  unfolding lookup
  absent P k [] h a = refl
  absent P k ((j, v) ∷ d) h a =
      ground (arith, key_eq_iff j k, λ (p : j ≡ k). h (rw (← p) a.0), absent P k d h a.1)

module _ (sd : SortedDict MemtableEntry) (hash : Key → ℤ) (count : ℕ) (k : Key) where
  gather-behind :
      (i : ℕ) (acc : Dict MemtableEntry) (ms : List (Memtable sd))
      → home sd hash count k < i
      → Shards sd hash count i ms
      → lookup k (gather sd hash acc ms) ≡ lookup k acc
  unfolding gather Table.get_all
  gather-behind i acc [] h s = refl
  gather-behind i acc (m ∷ ms) h s =
      rw (gather-behind (suc i) (update acc (sd.items m.entries)) ms (omega arith) s.2) (
        rw (lookup-update k acc (sd.items m.entries) (s.0).sorted) (
          rw (absent (λ j. home sd hash count j ≡ i) k (sd.items m.entries) (λ e. omega arith) s.1)
            refl))

  gather-home :
      (i j : ℕ) (acc : Dict MemtableEntry) (ms : List (Memtable sd)) {m : Memtable sd}
      → home sd hash count k ≡ i + j
      → Shards sd hash count i ms
      → item j ms ≡ ok m
      → lookup k (gather sd hash acc ms) ≡ or_else (Table.get sd k m) (lookup k acc)
  unfolding gather Table.get_all Table.get item
  gather-home i j acc [] h s e = absurd (cc)
  gather-home i zero acc (x ∷ ms) {m} h s e =
      let p : x ≡ m = ground arith in
      rw (gather-behind (suc i) (update acc (sd.items x.entries)) ms (omega arith) s.2)
        (rw (lookup-update k acc (sd.items x.entries) (s.0).sorted, sd.get-items, p) refl)
  gather-home i (suc j) acc (x ∷ ms) h s e =
      rw (gather-home (suc i) j (update acc (sd.items x.entries)) ms (omega arith) s.2 e) (
        rw (lookup-update k acc (sd.items x.entries) (s.0).sorted) (
          rw (absent (λ l. home sd hash count l ≡ i) k (sd.items x.entries) (λ q. omega arith) s.1)
            refl))

module _ (sd : SortedDict MemtableEntry) (hash : Key → ℤ) where
  -- On valid shards the merged dictionary of get_all_entries has for every key exactly the entry
  -- that get returns.
  pub get_all_entries-eq-get :
      (c : ConcurrentMemtables sd hash) (k : Key)
      → IsValid sd hash c
      → get sd hash k c ≡ ok (lookup k (get_all_entries sd hash c))
  unfolding get_all_entries lookup
  get_all_entries-eq-get c k v =
      let (m, at, g) = get-home sd hash k c v in
      rw
        (
          g,
          gather-home sd hash c.count k 0 (home sd hash c.count k) [] c.memtables (omega arith)
              v.shards at,
        )
        (ground arith)
