-- ===== src/Database/Keeps.antt =====
-- What flushing and compacting leave alone.
use yellowdb.Prelude.{
  ℕ, ◌+◌, ◌*◌, ◌≡◌, refl, Bool, ltb, Option, none, some, List, [], ◌∷◌, ◌∙◌, Bool-cases, inl, inr,
  ◌==◌,
}
use yellowdb.Errors.{Result, ok, raise}
use yellowdb.Text.{Key}
use yellowdb.Actions.{Action, continue, modify, ◌>>=◌, ◌>>◌}
use yellowdb.Memtable.Table
use yellowdb.Memtable.Table.{MemtableEntry, Memtable}
use yellowdb.Memtable.Concurrent.{ConcurrentMemtables}
use yellowdb.Platform.{Platform}
use yellowdb.Database.Source.{Source, concurrent, single}
use yellowdb.Database.State.{Database, Clock}
use yellowdb.Database.Source
use yellowdb.Cache.Defs.{WriteThroughCache}
use yellowdb.Serializer.KeyCache.{KeyCache}
use yellowdb.Wal.Defs.{Wal}
use yellowdb.SsTable.Defs.{SsTable}
use yellowdb.Compactor.Defs.{Compactor, needs_compaction}
use yellowdb.Database.Flush.{
  end_table, end_rotation, end_clear, clear_in, flush_of, write_table, rotate_wal, clear_shard,
  flush_each, flush_memtables, flush_memtable, flush_source, count_flush,
}
use yellowdb.Database.Compaction.{
  end_compaction, compact_range, perform_compaction, check_compaction,
}
use yellowdb.Database.Write.{flush_when_full, compact_when_due}

module _ {ℓ} {X : Type ℓ} (p : Platform) (view : Database p → X) where
  -- however the call ends, the view is what it was
  abbrev pub Keeps : Action (Database p) (Unit {0}) → Type ℓ
  Keeps m = (db : Database p) → view (m db).1 ≡ view db

  continue-Keeps :
      (r : Result (Unit {0}) × Database p) (k : Action (Database p) (Unit {0}))
      → Keeps k
      → view (continue r (λ _. k)).1 ≡ view r.1
  unfolding continue
  continue-Keeps (raise e, db) k h = refl
  continue-Keeps (ok a, db) k h = h db

  pub >>-Keeps : (m k : Action (Database p) (Unit {0})) → Keeps m → Keeps k → Keeps (m >> k)
  unfolding ◌>>=◌
  >>-Keeps m k h g db = continue-Keeps (m db) k g ∙ h db

module _ (p : Platform) where
  -- what a flush leaves alone
  abbrev pub front : Database p → Option WriteThroughCache × Bool × ℕ
  front db = (db.cache, db.closed, db.timestamp_counter)

  end_table-Keeps : (r : Result (Unit {0}) × SsTable × KeyCache) → Keeps p front (end_table p r)
  unfolding end_table
  end_table-Keeps (raise e, t, keys) db = refl
  end_table-Keeps (ok a, t, keys) db = refl

  write_table-Keeps : (es : List (Key × MemtableEntry)) → Keeps p front (write_table p es)
  unfolding write_table
  write_table-Keeps es db = end_table-Keeps _ db

  end_rotation-Keeps : (r : Result (Option ℕ × Wal)) → Keeps p front (end_rotation p r)
  unfolding end_rotation
  end_rotation-Keeps (raise e) db = refl
  end_rotation-Keeps (ok (old, w)) db = refl

  rotate_wal-Keeps : Keeps p front (rotate_wal p)
  unfolding rotate_wal
  rotate_wal-Keeps db = end_rotation-Keeps _ db

  end_clear-Keeps : (r : Result (ConcurrentMemtables p.sd p.hash)) → Keeps p front (end_clear p r)
  unfolding end_clear
  end_clear-Keeps (raise e) db = refl
  end_clear-Keeps (ok c) db = refl

  clear_in-Keeps : (m : Source p) (index : ℕ) → Keeps p front (clear_in p m index)
  unfolding clear_in
  clear_in-Keeps (single m) index db = refl
  clear_in-Keeps (concurrent c) index db = end_clear-Keeps _ db

  clear_shard-Keeps : (index : ℕ) → Keeps p front (clear_shard p index)
  unfolding clear_shard
  clear_shard-Keeps index db = clear_in-Keeps db.memtable index db

  count_flush-Keeps : Keeps p front (modify (count_flush p))
  unfolding count_flush
  count_flush-Keeps db = refl

  flush_each-Keeps : (ms : List (ℕ × Memtable p.sd)) → Keeps p front (flush_each p ms)
  unfolding flush_each
  flush_each-Keeps [] db = refl
  flush_each-Keeps ((index, m) ∷ ms) db = elim (Bool-cases (Table.get_count p.sd m == 0)) [
    | inl q ↦ rw q (flush_each-Keeps ms db)
    | inr q ↦ rw q (
        >>-Keeps p front (write_table p _) (clear_shard p index >> flush_each p ms)
          (write_table-Keeps _)
          (>>-Keeps p front (clear_shard p index) (flush_each p ms) (clear_shard-Keeps index)
            (flush_each-Keeps ms))
          db)
  ]

  pub flush_of-Keeps : (m : Source p) → Keeps p front (flush_of p m)
  unfolding flush_of flush_memtables flush_memtable
  flush_of-Keeps (concurrent c) db =
      >>-Keeps p front (flush_each p _) (rotate_wal p >> modify (count_flush p))
        (flush_each-Keeps _)
        (>>-Keeps p front (rotate_wal p) (modify (count_flush p)) rotate_wal-Keeps
          count_flush-Keeps)
        db
  flush_of-Keeps (single m) db = elim (Bool-cases (Table.get_count p.sd m == 0)) [
    | inl q ↦ rw q refl
    | inr q ↦ rw q (
        >>-Keeps p front (write_table p _) _ (write_table-Keeps _)
          (>>-Keeps p front (modify _) (rotate_wal p >> modify (count_flush p)) (λ d. refl)
            (>>-Keeps p front (rotate_wal p) (modify (count_flush p)) rotate_wal-Keeps
              count_flush-Keeps))
          db)
  ]

  pub flush_when_full-Keeps : Keeps p front (flush_when_full p)
  unfolding flush_when_full flush_source
  flush_when_full-Keeps db = elim (Bool-cases (Source.is_full p db.memtable)) [
    | inl q ↦ rw q (flush_of-Keeps db.memtable db)
    | inr q ↦ rw q refl
  ]

  -- what a compaction leaves alone
  abbrev pub upper : Database p → Source p × Option WriteThroughCache × Bool × ℕ
  upper db = (db.memtable, db.cache, db.closed, db.timestamp_counter)

  end_compaction-Keeps :
      (r : Result (Unit {0}) × Compactor × KeyCache) → Keeps p upper (end_compaction p r)
  unfolding end_compaction
  end_compaction-Keeps (raise e, c, keys) db = refl
  end_compaction-Keeps (ok a, c, keys) db = refl

  pub compact_range-Keeps : (o : Option (ℕ × ℕ)) → Keeps p upper (compact_range p o)
  unfolding compact_range
  compact_range-Keeps none db = refl
  compact_range-Keeps (some (i, j)) db = end_compaction-Keeps _ db

  pub compact_when_due-Keeps : (clock : Clock) → Keeps p upper (compact_when_due p clock)
  unfolding compact_when_due check_compaction perform_compaction
  compact_when_due-Keeps clock db =
      elim (Bool-cases (ltb (db.last_compaction_check + 10 * 1000000) clock.check)) [
        | inl q ↦ rw q (elim (Bool-cases (needs_compaction p.config db.compactor)) [
          | inl n ↦ rw n (compact_range-Keeps _ (record db { last_compaction_check = clock.reset }))
          | inr n ↦ rw n refl
        ])
        | inr q ↦ rw q refl
      ]
