-- ===== src/Database/Logging.antt =====
-- What flushing and compacting do to the log.
use yellowdb.Prelude.{
  ℕ, ◌+◌, ◌*◌, sym, true, ltb, Option, none, some, List, [], ◌∷◌, Bool-cases, inl, inr, ◌==◌,
  if_of_true, subst,
}
use yellowdb.Errors.{Result, ok, raise}
use yellowdb.Text.{Key}
use yellowdb.Actions.{Action, continue, modify, ◌>>=◌, ◌>>◌}
use yellowdb.Serializer.KeyCache.{KeyCache, IsCoherent}
use yellowdb.Serializer.Write.{serialize_record-eq-record_bytes}
use yellowdb.Memtable.Table
use yellowdb.Memtable.Table.{MemtableEntry, Memtable}
use yellowdb.Memtable.Concurrent.{ConcurrentMemtables}
use yellowdb.Wal.Defs.{Wal}
use yellowdb.Wal.Recover.{Entry}
use yellowdb.Wal.Log.{IsLog}
use yellowdb.Wal.Follows.{Follows, Follows-refl, Follows-trans, counted-Follows, rotate-Follows}
use yellowdb.SsTable.Defs.{SsTable, write_record}
use yellowdb.Compactor.Defs.{
  Compactor, needs_compaction, write_all, compact_levels, compact_tables, end_merge, then_write,
  merge_levels,
}
use yellowdb.Compactor.Merge.{entries_of, sorted_items}
use yellowdb.SsTable.Defs
use yellowdb.Platform.{Platform}
use yellowdb.Database.Source.{Source, concurrent, single}
use yellowdb.Database.Source
use yellowdb.Database.State.{Database, Clock}
use yellowdb.Database.Flush.{
  end_table, end_rotation, end_clear, clear_in, flush_of, write_table, rotate_wal, clear_shard,
  flush_each, flush_memtables, flush_memtable, flush_source, count_flush,
}
use yellowdb.Database.Compaction.{
  end_compaction, compact_range, perform_compaction, check_compaction,
}
use yellowdb.Database.Write.{flush_when_full, compact_when_due}

module _ (p : Platform) where
  then_write-IsCoherent :
      (r : Result (Unit {0}) × SsTable × KeyCache)
      (rest : SsTable → KeyCache → Result (Unit {0}) × SsTable × KeyCache)
      → IsCoherent r.2
      → ((t : SsTable) (keys : KeyCache) → IsCoherent keys → IsCoherent (rest t keys).2)
      → IsCoherent (then_write p r rest).2
  unfolding then_write
  then_write-IsCoherent (raise x, t, keys) rest k h = k
  then_write-IsCoherent (ok a, t, keys) rest k h = h t keys k

  write_all-IsCoherent :
      (es : List Entry) (t : SsTable) (keys : KeyCache)
      → IsCoherent keys
      → IsCoherent (write_all p es t keys).2
  unfolding write_all write_record
  write_all-IsCoherent [] t keys k = k
  write_all-IsCoherent (e ∷ es) t keys k =
      let h =
        (serialize_record-eq-record_bytes p.z p.config e.key e.value e.timestamp e.deleted true keys
          k).1 in
      then_write-IsCoherent
        (write_record p.z p.md5 p.config e.key e.value e.timestamp e.deleted true t keys)
        (write_all p es) h (write_all-IsCoherent es)

  -- the call keeps the log, however it ends
  abbrev pub Logs : Action (Database p) (Unit {0}) → Type 0
  Logs m = (db : Database p) → IsLog p.z p.config db.wal → Follows p.z p.config db.wal (m db).1.wal

  continue-Logs :
      (w : Wal) (r : Result (Unit {0}) × Database p) (k : Action (Database p) (Unit {0}))
      → Follows p.z p.config w r.1.wal
      → Logs k
      → Follows p.z p.config w (continue r (λ _. k)).1.wal
  unfolding continue
  continue-Logs w (raise e, db) k s h = s
  continue-Logs w (ok a, db) k s h = Follows-trans p.z p.config w db.wal (k db).1.wal s (h db s.0.0)

  pub >>-Logs : (m k : Action (Database p) (Unit {0})) → Logs m → Logs k → Logs (m >> k)
  unfolding ◌>>=◌
  >>-Logs m k h g db v = continue-Logs db.wal (m db) k (h db v) g

  end_table-Logs :
      (r : Result (Unit {0}) × SsTable × KeyCache) → IsCoherent r.2 → Logs (end_table p r)
  unfolding end_table
  end_table-Logs (raise e, t, keys) k db v =
      counted-Follows p.z p.config db.wal db.wal.entry_count keys v k
  end_table-Logs (ok a, t, keys) k db v =
      counted-Follows p.z p.config db.wal db.wal.entry_count keys v k

  write_table-Logs : (es : List (Key × MemtableEntry)) → Logs (write_table p es)
  unfolding write_table
  write_table-Logs es db v = end_table-Logs _ (write_all-IsCoherent _ _ db.wal.keys v.keys) db v

  rotate_wal-Logs : Logs (rotate_wal p)
  unfolding rotate_wal end_rotation
  rotate_wal-Logs db v = let (u, e, f) = rotate-Follows p.z p.config db.wal v in rw e f

  end_clear-Logs : (r : Result (ConcurrentMemtables p.sd p.hash)) → Logs (end_clear p r)
  unfolding end_clear
  end_clear-Logs (raise e) db v = Follows-refl p.z p.config db.wal v
  end_clear-Logs (ok c) db v = Follows-refl p.z p.config db.wal v

  clear_in-Logs : (m : Source p) (index : ℕ) → Logs (clear_in p m index)
  unfolding clear_in
  clear_in-Logs (single m) index db v = Follows-refl p.z p.config db.wal v
  clear_in-Logs (concurrent c) index db v = end_clear-Logs _ db v

  clear_shard-Logs : (index : ℕ) → Logs (clear_shard p index)
  unfolding clear_shard
  clear_shard-Logs index db v = clear_in-Logs db.memtable index db v

  rotated-Logs : Logs (rotate_wal p >> modify (count_flush p))
  unfolding count_flush
  rotated-Logs =
      >>-Logs (rotate_wal p) (modify (count_flush p)) rotate_wal-Logs
        (λ db v. Follows-refl p.z p.config db.wal v)

  flush_each-Logs : (ms : List (ℕ × Memtable p.sd)) → Logs (flush_each p ms)
  unfolding flush_each
  flush_each-Logs [] db v = Follows-refl p.z p.config db.wal v
  flush_each-Logs ((index, m) ∷ ms) db v = elim (Bool-cases (Table.get_count p.sd m == 0)) [
    | inl q ↦ rw q (flush_each-Logs ms db v)
    | inr q ↦ rw q (
        >>-Logs (write_table p _) (clear_shard p index >> flush_each p ms) (write_table-Logs _)
          (>>-Logs (clear_shard p index) (flush_each p ms) (clear_shard-Logs index)
            (flush_each-Logs ms))
          db v)
  ]

  flush_of-Logs : (m : Source p) → Logs (flush_of p m)
  unfolding flush_of flush_memtables flush_memtable
  flush_of-Logs (concurrent c) db v =
      >>-Logs (flush_each p _) (rotate_wal p >> modify (count_flush p)) (flush_each-Logs _)
        rotated-Logs db v
  flush_of-Logs (single m) db v = elim (Bool-cases (Table.get_count p.sd m == 0)) [
    | inl q ↦ rw q (Follows-refl p.z p.config db.wal v)
    | inr q ↦ rw q (
        >>-Logs (write_table p _) _ (write_table-Logs _)
          (>>-Logs (modify _) (rotate_wal p >> modify (count_flush p))
            (λ d u. Follows-refl p.z p.config d.wal u) rotated-Logs)
          db v)
  ]

  pub flush_source-Logs : Logs (flush_source p)
  unfolding flush_source
  flush_source-Logs db v = flush_of-Logs db.memtable db v

  pub flush_when_full-Logs : Logs (flush_when_full p)
  unfolding flush_when_full
  flush_when_full-Logs db v = elim (Bool-cases (Source.is_full p db.memtable)) [
    | inl q ↦ rw q (flush_source-Logs db v)
    | inr q ↦ rw q (Follows-refl p.z p.config db.wal v)
  ]

  end_merge-IsCoherent :
      (from_level to_level : ℕ) (ts : List SsTable) (c : Compactor)
      (r : Result (Unit {0}) × SsTable × KeyCache)
      → IsCoherent r.2
      → IsCoherent (end_merge p from_level to_level ts c r).2
  unfolding end_merge
  end_merge-IsCoherent from_level to_level ts c (raise e, t, keys) k = k
  end_merge-IsCoherent from_level to_level ts c (ok a, t, keys) k = k

  compact_tables-IsCoherent :
      (from_level to_level : ℕ) (ts : List SsTable) (c : Compactor) (keys : KeyCache)
      → IsCoherent keys
      → IsCoherent (compact_tables p from_level to_level ts c keys).2
  unfolding compact_tables
  compact_tables-IsCoherent from_level to_level [] c keys k = k
  compact_tables-IsCoherent from_level to_level (t ∷ ts) c keys k =
      let sequence = c.next_sequence in
      let entries = entries_of (sorted_items (merge_levels p (t ∷ ts) (c.levels to_level))) in
      let table = Defs.new p.config to_level sequence (p.old_file to_level sequence) in
      end_merge-IsCoherent from_level to_level (t ∷ ts) (record c { next_sequence = sequence + 1 })
        (write_all p entries table keys) (write_all-IsCoherent entries table keys k)

  end_compaction-Logs :
      (r : Result (Unit {0}) × Compactor × KeyCache) → IsCoherent r.2 → Logs (end_compaction p r)
  unfolding end_compaction
  end_compaction-Logs (raise e, c, keys) k db v =
      counted-Follows p.z p.config db.wal db.wal.entry_count keys v k
  end_compaction-Logs (ok a, c, keys) k db v =
      counted-Follows p.z p.config db.wal db.wal.entry_count keys v k

  compact_range-Logs : (o : Option (ℕ × ℕ)) → Logs (compact_range p o)
  unfolding compact_range compact_levels
  compact_range-Logs none db v = Follows-refl p.z p.config db.wal v
  compact_range-Logs (some (i, j)) db v =
      end_compaction-Logs _
        (compact_tables-IsCoherent i j (db.compactor.levels i) db.compactor db.wal.keys v.keys) db v

  pub perform_compaction-Logs : Logs (perform_compaction p)
  unfolding perform_compaction
  perform_compaction-Logs db v = compact_range-Logs _ db v

  abbrev reset_at : Clock → Database p → Database p
  reset_at clock db = record db { last_compaction_check = clock.reset }

  pub compact_when_due-Logs : (clock : Clock) → Logs (compact_when_due p clock)
  unfolding compact_when_due check_compaction
  compact_when_due-Logs clock db v =
      elim (Bool-cases (ltb (db.last_compaction_check + 10 * 1000000) clock.check)) [
        | inl q ↦ rw q (elim (Bool-cases (needs_compaction p.config db.compactor)) [
          | inl n ↦
              subst (λ (r : Result (Unit {0}) × Database p). Follows p.z p.config db.wal r.1.wal)
                (sym (
                  if_of_true (needs_compaction p.config db.compactor)
                    (perform_compaction p (reset_at clock db)) (ok tt, reset_at clock db) n))
                (perform_compaction-Logs (reset_at clock db) v)
          | inr n ↦ rw n (Follows-refl p.z p.config db.wal v)
        ])
        | inr q ↦ rw q (Follows-refl p.z p.config db.wal v)
      ]
