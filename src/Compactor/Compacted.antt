-- ===== src/Compactor/Compacted.antt =====
-- What `compact_levels` leaves in the levels.
use yellowdb.Prelude.{
  ℕ, ◌+◌, ◌≡◌, ◌≢◌, refl, sym, ap, ◌∙◌, subst, true, false, ◌&&◌, none, List, [], ◌∷◌, ◌++◌, map,
  append-nil, append_assoc, arith, ◌==◌,
}
use yellowdb.Errors.{Result, ok, raise}
use yellowdb.Serializer.KeyCache.{KeyCache, IsCoherent}
use yellowdb.Serializer.Write.{serialize_record-eq-record_bytes}
use yellowdb.Wal.Recover.{Entry}
use yellowdb.SsTable.Defs
use yellowdb.SsTable.Defs.{SsTable, bytes_of, write_record, scan_all}
use yellowdb.SsTable.Files.{finalize}
use yellowdb.SsTable.Scan.{as_read, Holds, nil, write_record-Holds, scan_all-Holds}
use yellowdb.Platform.{Platform}
use yellowdb.Compactor.Level.{add_sstable, remove_sstable, same_table}
use yellowdb.Compactor.Merge.{entries_of, sorted_items}
use yellowdb.Compactor.Defs.{
  Compactor, set_level, add_sstable_at, remove_all, then_write, write_all, merge_levels, end_merge,
  compact_tables, compact_levels,
}

remove_all_self : (ts : List SsTable) → remove_all ts ts ≡ []
unfolding remove_all remove_sstable same_table
remove_all_self [] = refl
remove_all_self (t ∷ ts) =
    let e : (t.level == t.level && t.sequence == t.sequence) ≡ true = ground arith in
    rw e (remove_all_self ts)

module _ (p : Platform) where
  -- a written entry, as it is read again
  abbrev pub read_back : Entry → Entry
  read_back e = as_read p.z p.config e.key e.value e.timestamp e.deleted true

  pub then_write_inv :
      (r : Result (Unit {0}) × SsTable × KeyCache)
      (rest : SsTable → KeyCache → Result (Unit {0}) × SsTable × KeyCache)
      → (then_write p r rest).0 ≡ ok tt
      → (r.0 ≡ ok tt) × (then_write p r rest ≡ rest r.1 r.2)
  unfolding then_write
  then_write_inv (raise e, t, keys) rest h = absurd (cc)
  then_write_inv (ok a, t, keys) rest h = (refl, refl)

  pub write_record-IsCoherent :
      (e : Entry) (t : SsTable) (keys : KeyCache)
      → IsCoherent keys
      → IsCoherent
          (write_record p.z p.md5 p.config e.key e.value e.timestamp e.deleted true t keys).2
  unfolding write_record
  write_record-IsCoherent e t keys k =
      (serialize_record-eq-record_bytes p.z p.config e.key e.value e.timestamp e.deleted true keys
        k).1

  write_all-Holds :
      (fs : List Entry) (t : SsTable) (keys : KeyCache) (es : List Entry)
      → IsCoherent keys
      → Holds p.z p.config es (bytes_of t.content)
      → (write_all p fs t keys).0 ≡ ok tt
      → Holds p.z p.config (es ++ map read_back fs) (bytes_of (write_all p fs t keys).1.content)
  unfolding write_all
  write_all-Holds [] t keys es k x h =
      subst (λ l. Holds p.z p.config l (bytes_of t.content)) (sym (append-nil es)) x
  write_all-Holds (e ∷ fs) t keys es k x h =
      let r = write_record p.z p.md5 p.config e.key e.value e.timestamp e.deleted true t keys in
      let (a, b) = then_write_inv r (write_all p fs) h in
      let y =
        write_record-Holds p.z p.config p.md5 e.key e.value e.timestamp e.deleted true t keys k x
          a in
      let k' = write_record-IsCoherent e t keys k in
      let tail =
        write_all-Holds fs r.1 r.2 (es ++ read_back e ∷ []) k' y (sym (ap (λ u. u.0) b) ∙ h) in
      rw b (
        subst (λ l. Holds p.z p.config l (bytes_of (write_all p fs r.1 r.2).1.content))
          (append_assoc es (read_back e ∷ []) (map read_back fs)) tail)

  end_merge_inv :
      (from_level to_level : ℕ) (ts : List SsTable) (c : Compactor)
      (r : Result (Unit {0}) × SsTable × KeyCache)
      → (end_merge p from_level to_level ts c r).0 ≡ ok tt
      → (r.0 ≡ ok tt)
        × ((end_merge p from_level to_level ts c r).1
            ≡ add_sstable_at
                (finalize p.config r.1)
                to_level
                (set_level from_level (remove_all ts (c.levels from_level)) c))
  unfolding end_merge
  end_merge_inv from_level to_level ts c (raise e, t, keys) h = absurd (cc)
  end_merge_inv from_level to_level ts c (ok a, t, keys) h = (refl, refl)

  scan_all-finalize : (t : SsTable) → scan_all p.z (finalize p.config t) ≡ scan_all p.z t
  unfolding scan_all finalize
  scan_all-finalize t = refl

  -- the levels after a table moved down
  moved_lem :
      (i j : ℕ) (ts : List SsTable) (t : SsTable) (c : Compactor)
      → i ≢ j
      → ((add_sstable_at t j (set_level i ts c)).levels i ≡ ts)
        × ((add_sstable_at t j (set_level i ts c)).levels j ≡ add_sstable t (c.levels j))
        × ((n : ℕ) → n ≢ i → n ≢ j → (add_sstable_at t j (set_level i ts c)).levels n ≡ c.levels n)
  unfolding add_sstable_at set_level
  moved_lem i j ts t c ne =
      let ij : (i == j) ≡ false = ground arith in
      let ji : (j == i) ≡ false = ground arith in
      let ii : (i == i) ≡ true = ground arith in
      let jj : (j == j) ≡ true = ground arith in
      (
        rw (ji, ii) refl,
        rw (jj, ij) refl,
        λ n a b.
            let e : (i == n) ≡ false = ground arith in
            let f : (j == n) ≡ false = ground arith in rw (f, e) refl,
      )

  -- what `compact_levels` is to leave
  abbrev pub Compacted : ℕ → ℕ → Compactor → Compactor → Type 0
  Compacted i j c c' =
      (c'.levels i ≡ [])
      × ((t : SsTable) × (c'.levels j ≡ add_sstable t (c.levels j))
          × (scan_all p.z t
              ≡ map read_back
                  (entries_of (sorted_items (merge_levels p (c.levels i) (c.levels j))))))
      × ((n : ℕ) → n ≢ i → n ≢ j → c'.levels n ≡ c.levels n)

  compact_tables_lem :
      (i j : ℕ) (s : SsTable) (ts : List SsTable) (c : Compactor) (keys : KeyCache)
      → c.levels i ≡ s ∷ ts
      → i ≢ j
      → IsCoherent keys
      → p.old_file j c.next_sequence ≡ none
      → (compact_tables p i j (s ∷ ts) c keys).0 ≡ ok tt
      → Compacted i j c (compact_tables p i j (s ∷ ts) c keys).1
  unfolding compact_tables
  compact_tables_lem i j s ts c keys l ne k o h =
      let fs = entries_of (sorted_items (merge_levels p (s ∷ ts) (c.levels j))) in
      let table = Defs.new p.config j c.next_sequence (p.old_file j c.next_sequence) in
      let r = write_all p fs table keys in
      let c1 : Compactor = record c { next_sequence = c.next_sequence + 1 } in
      let (a, e) = end_merge_inv i j (s ∷ ts) c1 r h in
      let fresh : Holds p.z p.config [] (bytes_of table.content) =
        unfold Defs.new bytes_of in rw o nil in
      let x = write_all-Holds fs table keys [] k fresh a in
      let t = finalize p.config r.1 in
      let read = scan_all-finalize r.1 ∙ scan_all-Holds p.z p.config (map read_back fs) r.1 x in
      let rest = remove_all (s ∷ ts) (c.levels i) in
      let none_left : rest ≡ [] = ap (remove_all (s ∷ ts)) l ∙ remove_all_self (s ∷ ts) in
      let (m1, m2, m3) = moved_lem i j rest t c1 ne in
      subst (Compacted i j c) (sym e) (m1 ∙ none_left, (t, m2, rw l read), m3)

  -- When compact_levels from a level that has tables to another one does not raise, with a coherent
  -- key cache and no old file under the name of the new table, then the first level is empty, the
  -- other one has its old tables and a new one, which scan_all reads as the merged entries in key
  -- order, and every other level is as before.
  pub compact_levels_lem :
      (i j : ℕ) (s : SsTable) (ts : List SsTable) (c : Compactor) (keys : KeyCache)
      → c.levels i ≡ s ∷ ts
      → i ≢ j
      → IsCoherent keys
      → p.old_file j c.next_sequence ≡ none
      → (compact_levels p i j c keys).0 ≡ ok tt
      → Compacted i j c (compact_levels p i j c keys).1
  unfolding compact_levels
  compact_levels_lem i j s ts c keys l ne k o h =
      subst (λ us. Compacted i j c (compact_tables p i j us c keys).1) (sym l)
        (compact_tables_lem i j s ts c keys l ne k o (rw l at h))
