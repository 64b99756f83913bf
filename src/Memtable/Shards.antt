-- ===== src/Memtable/Shards.antt =====
-- The invariant of the shards, and `put`.
use native.Mathlib.Nat.{mod-lt}
use yellowdb.Prelude.{
  ℕ, zero, suc, ◌+◌, ◌<◌, ◌≡◌, Bool, List, [], ◌∷◌, All, length, arith, Bool-cases, inl, inr,
}
use yellowdb.Prelude.Int.{ℤ, pos, negsuc, mod_ℤ}
use yellowdb.Errors.{ok, >>=-eq-ok}
use yellowdb.Text.{Key, Bytes}
use yellowdb.Text.Order.{key_lt, key_eq}
use yellowdb.Dict.{Dict}
use yellowdb.Memtable.Sorted.{insert_sorted}
use yellowdb.Memtable.SortedDict.{SortedDict}
use yellowdb.Memtable.Table
use yellowdb.Memtable.Table.{MemtableEntry, Memtable, entry}
use yellowdb.Memtable.Laws
use yellowdb.Items.{item, modify, length-modify}
use yellowdb.Memtable.Concurrent.{ConcurrentMemtables, get_memtable_index, put}

pub mod_ℤ-lt : (a : ℤ) (m : ℕ) → 0 < m → mod_ℤ a m < m
unfolding mod_ℤ
mod_ℤ-lt (pos n) m h = mod-lt n h
mod_ℤ-lt (negsuc n) m h = omega arith

module _ (sd : SortedDict MemtableEntry) (hash : Key → ℤ) where
  -- the shard that a key belongs to
  abbrev pub home : ℕ → Key → ℕ
  home count key = mod_ℤ (hash key) count

  -- shard number `i` and those behind it are valid, and hold only keys that belong to them
  abbrev pub Shards : ℕ → ℕ → List (Memtable sd) → Type 0
  Shards count i [] = Unit
  Shards count i (m ∷ ms) =
      Laws.IsValid sd m
      × All (λ e. home count e.0 ≡ i) (sd.items m.entries)
      × Shards count (suc i) ms

  pub record IsValid (c : ConcurrentMemtables sd hash) : Type 0 where
    pub positive : 0 < c.count
    pub sized : length c.memtables ≡ c.count
    pub shards : Shards c.count 0 c.memtables

  All-insert_sorted :
      (P : Key → Type 0) (k : Key) (e : MemtableEntry) (d : Dict MemtableEntry)
      → P k
      → All (λ x. P x.0) d
      → All (λ x. P x.0) (insert_sorted k e d)
  unfolding insert_sorted
  All-insert_sorted P k e [] h a = (h, tt)
  All-insert_sorted P k e ((j, w) ∷ d) h a = elim (Bool-cases (key_lt k j)) [
    | inl p ↦ rw p (h, a)
    | inr p ↦ rw p (elim (Bool-cases (key_eq k j)) [
      | inl q ↦ rw q (h, a.1)
      | inr q ↦ rw q (a.0, All-insert_sorted P k e d h a.1)
    ])
  ]

  pub item-Shards :
      (count i j : ℕ) (ms : List (Memtable sd)) {m : Memtable sd}
      → Shards count i ms
      → item j ms ≡ ok m
      → Laws.IsValid sd m
  unfolding item
  item-Shards count i j [] s h = absurd (cc)
  item-Shards count i zero (x ∷ ms) {m} s h = let e : x ≡ m = ground arith in rw (← e) s.0
  item-Shards count i (suc j) (x ∷ ms) s h = item-Shards count (suc i) j ms s.2 h

  pub index-home :
      (key : Key) (c : ConcurrentMemtables sd hash)
      → IsValid c
      → get_memtable_index sd hash c key ≡ ok (home c.count key)
  unfolding get_memtable_index
  index-home key c v = ground arith

  module _ (key : Key) (value : Bytes) (timestamp : ℕ) (deleted : Bool) where
    put-Shards :
        (count i j : ℕ) (ms ms' : List (Memtable sd))
        → home count key ≡ i + j
        → Shards count i ms
        → modify j (Table.put sd key value timestamp deleted) ms ≡ ok ms'
        → Shards count i ms'
    unfolding modify
    put-Shards count i j [] ms' p s h = absurd (cc)
    put-Shards count i zero (m ∷ ms) ms' p s h =
        let (m', e, q) = >>=-eq-ok (Table.put sd key value timestamp deleted m) _ h in
        let (n, _, r) = Laws.put_inv sd key value timestamp deleted s.0 e in
        let t : ms' ≡ m' ∷ ms = ground arith in
        rw t (
          Laws.put-IsValid sd key value timestamp deleted s.0 e,
          rw r (
              rw (sd.items-assign)
                (All-insert_sorted (λ k. home count k ≡ i) key _ _ (omega arith) s.1)),
          s.2,
        )
    put-Shards count i (suc j) (m ∷ ms) ms' p s h =
        let (ns, e, q) = >>=-eq-ok (modify j (Table.put sd key value timestamp deleted) ms) _ h in
        let t : ms' ≡ m ∷ ns = ground arith in
        rw t (s.0, s.1, put-Shards count (suc i) j ms ns (omega arith) s.2 e)

    -- what a `put` that does not raise has done
    pub put_inv :
        {c c' : ConcurrentMemtables sd hash}
        → IsValid c
        → put sd hash key value timestamp deleted c ≡ ok c'
        → (modify (home c.count key) (Table.put sd key value timestamp deleted) c.memtables
            ≡ ok c'.memtables)
          × (c'.count ≡ c.count)
    unfolding put
    put_inv {c} v h =
        let (ms, e, q) =
          >>=-eq-ok
            (modify (home c.count key) (Table.put sd key value timestamp deleted) c.memtables) _
            (rw (index-home key c v) at h) in
        ground arith

    pub put-IsValid :
        {c c' : ConcurrentMemtables sd hash}
        → IsValid c
        → put sd hash key value timestamp deleted c ≡ ok c'
        → IsValid c'
    put-IsValid {c} {c'} v h =
        let (e, n) = put_inv v h in
        record {
          positive = omega arith;
          sized = omega (
            arith,
            length-modify (home c.count key) (Table.put sd key value timestamp deleted) c.memtables
                c'.memtables e,
            v.sized,
            n,
          );
          shards = rw n (put-Shards c.count 0 (home c.count key) _ _ (omega arith) v.shards e);
        }
