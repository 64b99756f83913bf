-- ===== src/Compactor/Kept.antt =====
-- The tables that a compaction leaves.
use yellowdb.Prelude.{
  ℕ, ◌+◌, ◌≡◌, refl, ◌∙◌, sym, ap, none, List, [], ◌∷◌, ◌++◌, All, true, inl, inr, Bool-cases, ◌==◌,
}
use yellowdb.Errors.{Result, ok, raise}
use yellowdb.Text.Order.{key_lt}
use yellowdb.Serializer.KeyCache.{KeyCache, IsCoherent}
use yellowdb.Wal.Recover.{Entry}
use yellowdb.SsTable.Defs
use yellowdb.SsTable.Defs.{SsTable, write_record}
use yellowdb.SsTable.Files.{finalize}
use yellowdb.SsTable.Lookup.{IsWritten}
use yellowdb.SsTable.Written.{new-IsWritten, write_record-IsWritten}
use yellowdb.Compactor.Level.{sort_key, place, sort, add_sstable, remove_sstable, same_table}
use yellowdb.Compactor.Merge.{entries_of, sorted_items}
use yellowdb.Compactor.Defs.{
  Compactor, set_level, add_sstable_at, remove_all, write_all, merge_levels, end_merge,
  compact_tables, compact_levels,
}
use yellowdb.Compactor.Compacted.{then_write_inv, write_record-IsCoherent}
use yellowdb.Compactor.Stored.{IsWrittenOut}
use yellowdb.Platform.{Platform}

module _ (P : SsTable → Type 0) where
  place-All : (t : SsTable) (ts : List SsTable) → P t → All P ts → All P (place t ts)
  unfolding place
  place-All t [] x a = (x, tt)
  place-All t (u ∷ us) x (y, a) = elim (Bool-cases (key_lt (sort_key u) (sort_key t))) [
    | inl p ↦ rw p (y, place-All t us x a)
    | inr p ↦ rw p (x, (y, a))
  ]

  sort-All : (ts : List SsTable) → All P ts → All P (sort ts)
  unfolding sort
  sort-All [] a = tt
  sort-All (t ∷ ts) (x, a) = place-All t (sort ts) x (sort-All ts a)

  snoc-All : (ts : List SsTable) (t : SsTable) → All P ts → P t → All P (ts ++ t ∷ [])
  snoc-All [] t a x = (x, tt)
  snoc-All (u ∷ us) t (y, a) x = (y, snoc-All us t a x)

  remove_sstable-All : (t : SsTable) (ts : List SsTable) → All P ts → All P (remove_sstable t ts)
  unfolding remove_sstable
  remove_sstable-All t [] a = tt
  remove_sstable-All t (u ∷ us) (y, a) = elim (Bool-cases (same_table t u)) [
    | inl p ↦ rw p a
    | inr p ↦ rw p (y, remove_sstable-All t us a)
  ]

  remove_all-All : (ts us : List SsTable) → All P us → All P (remove_all ts us)
  unfolding remove_all
  remove_all-All [] us a = a
  remove_all-All (t ∷ ts) us a = remove_all-All ts (remove_sstable t us) (remove_sstable-All t us a)

  set_level-All :
      (n m : ℕ) (ts : List SsTable) (c : Compactor)
      → All P ts
      → All P (c.levels m)
      → All P ((set_level n ts c).levels m)
  unfolding set_level
  set_level-All n m ts c a b = elim (Bool-cases (n == m)) [ inl p ↦ rw p a | inr p ↦ rw p b ]

  add_sstable_at-All :
      (t : SsTable) (n m : ℕ) (c : Compactor)
      → P t
      → ((k : ℕ) → All P (c.levels k))
      → All P ((add_sstable_at t n c).levels m)
  unfolding add_sstable_at add_sstable
  add_sstable_at-All t n m c x a =
      set_level-All n m (add_sstable t (c.levels n)) c
        (sort-All _ (snoc-All (c.levels n) t (a n) x)) (a m)

module _ (p : Platform) where
  finalize-IsWritten :
      (t : SsTable)
      → IsWritten p.z p.config p.md5 t
      → IsWritten p.z p.config p.md5 (finalize p.config t)
  unfolding finalize
  finalize-IsWritten t w = record {
    entries = w.entries;
    holds = w.holds;
    complete = w.complete;
    points = w.points;
  }

  write_all-IsWritten :
      (es : List Entry) (t : SsTable) (keys : KeyCache)
      → IsCoherent keys
      → IsWritten p.z p.config p.md5 t
      → (write_all p es t keys).0 ≡ ok tt
      → IsWritten p.z p.config p.md5 (write_all p es t keys).1
  unfolding write_all
  write_all-IsWritten [] t keys k w h = w
  write_all-IsWritten (e ∷ es) t keys k w h =
      let r = write_record p.z p.md5 p.config e.key e.value e.timestamp e.deleted true t keys in
      let (a, b) = then_write_inv p r (write_all p es) h in
      let w' =
        write_record-IsWritten p.z p.config p.md5 e.key e.value e.timestamp e.deleted true t keys k
          w a in
      rw b (
        write_all-IsWritten es r.1 r.2 (write_record-IsCoherent p e t keys k) w'
          (sym (ap (λ u. u.0) b) ∙ h))

  end_merge-IsWrittenOut :
      (i j m : ℕ) (ts : List SsTable) (c : Compactor) (r : Result (Unit {0}) × SsTable × KeyCache)
      → ((n : ℕ) → IsWrittenOut p (c.levels n))
      → (r.0 ≡ ok tt → IsWritten p.z p.config p.md5 r.1)
      → IsWrittenOut p ((end_merge p i j ts c r).1.levels m)
  unfolding end_merge
  end_merge-IsWrittenOut i j m ts c (raise e, t, keys) w x = w m
  end_merge-IsWrittenOut i j m ts c (ok a, t, keys) w x =
      let rest = remove_all ts (c.levels i) in
      add_sstable_at-All (IsWritten p.z p.config p.md5) (finalize p.config t) j m
        (set_level i rest c) (finalize-IsWritten t (x refl))
        (λ n.
          set_level-All (IsWritten p.z p.config p.md5) i n rest c
            (remove_all-All (IsWritten p.z p.config p.md5) ts (c.levels i) (w i)) (w n))

  compact_tables-IsWrittenOut :
      (i j m : ℕ) (ts : List SsTable) (c : Compactor) (keys : KeyCache)
      → IsCoherent keys
      → p.old_file j c.next_sequence ≡ none
      → ((n : ℕ) → IsWrittenOut p (c.levels n))
      → IsWrittenOut p ((compact_tables p i j ts c keys).1.levels m)
  unfolding compact_tables
  compact_tables-IsWrittenOut i j m [] c keys k o w = w m
  compact_tables-IsWrittenOut i j m (s ∷ ts) c keys k o w =
      let es = entries_of (sorted_items (merge_levels p (s ∷ ts) (c.levels j))) in
      let table = Defs.new p.config j c.next_sequence (p.old_file j c.next_sequence) in
      let fresh : IsWritten p.z p.config p.md5 table =
        rw o (new-IsWritten p.z p.config p.md5 j c.next_sequence) in
      end_merge-IsWrittenOut i j m (s ∷ ts) (record c { next_sequence = c.next_sequence + 1 })
        (write_all p es table keys) w (write_all-IsWritten es table keys k fresh)

  -- With a coherent key cache and no old file under the name of the new table, compact_levels,
  -- whether it raises or not and between any two levels, leaves in every level only tables that
  -- write_record writes, if there were only such tables before.
  pub compact_levels-IsWrittenOut :
      (i j m : ℕ) (c : Compactor) (keys : KeyCache)
      → IsCoherent keys
      → p.old_file j c.next_sequence ≡ none
      → ((n : ℕ) → IsWrittenOut p (c.levels n))
      → IsWrittenOut p ((compact_levels p i j c keys).1.levels m)
  unfolding compact_levels
  compact_levels-IsWrittenOut i j m c keys k o w =
      compact_tables-IsWrittenOut i j m (c.levels i) c keys k o w
