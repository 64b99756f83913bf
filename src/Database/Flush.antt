-- ===== src/Database/Flush.antt =====
-- `_flush_memtables` and `_flush_memtable`.
use yellowdb.Prelude.{ℕ, ◌+◌, Option, List, [], ◌∷◌, map, ◌==◌, if◌then◌else◌}
use yellowdb.Errors.{Result, ok, raise}
use yellowdb.Text.{Key}
use yellowdb.Actions.{Action, pure, modify, ◌>>◌}
use yellowdb.Memtable.Table
use yellowdb.Memtable.Table.{MemtableEntry, Memtable}
use yellowdb.Memtable.Concurrent
use yellowdb.Memtable.Concurrent.{ConcurrentMemtables}
use yellowdb.Serializer.KeyCache.{KeyCache}
use yellowdb.Wal.Defs as Wal
use yellowdb.Wal.Defs.{Wal}
use yellowdb.Wal.Recover.{Entry}
use yellowdb.SsTable.Defs
use yellowdb.SsTable.Defs.{SsTable}
use yellowdb.SsTable.Files.{finalize}
use yellowdb.Compactor.Defs.{write_all, add_sstable_at}
use yellowdb.Platform.{Platform}
use yellowdb.Database.Source.{Source, concurrent, single}
use yellowdb.Database.State.{Database}

abbrev pub stored_entry : Key × MemtableEntry → Entry
stored_entry (key, e) = record {
  key = key;
  value = e.value;
  timestamp = e.timestamp;
  deleted = e.deleted;
}

module _ (p : Platform) where
  -- the statements of a flush behind the loop that writes the table, whose end is the first argument
  unfoldable pub end_table : Result (Unit {0}) × SsTable × KeyCache → Action (Database p) (Unit {0})
  unfolding finalize add_sstable_at
  end_table (raise e, t, keys') db = (
    raise e,
    record db { sequence_number = db.sequence_number + 1; wal = record db.wal { keys = keys' } },
  )
  end_table (ok _, t, keys') db = (
    ok tt,
    record db {
      sequence_number = db.sequence_number + 1;
      wal = record db.wal { keys = keys' };
      compactor = add_sstable_at (finalize p.config t) 0 db.compactor;
    },
  )

  -- the statements from `sstable_path = …` to `self.compactor.add_sstable(…)`, which the two
  -- methods share
  unfoldable pub write_table : List (Key × MemtableEntry) → Action (Database p) (Unit {0})
  unfolding write_all end_table
  write_table entries db =
      let sequence = db.sequence_number in
      let table = Defs.new p.config 0 sequence (p.old_file 0 sequence) in
      end_table (write_all p (map stored_entry entries) table db.wal.keys) db

  unfoldable pub end_rotation : Result (Option ℕ × Wal) → Action (Database p) (Unit {0})
  end_rotation (raise e) db = (raise e, db)
  end_rotation (ok (old, w)) db = (ok tt, record db { wal = w })

  unfoldable pub rotate_wal : Action (Database p) (Unit {0})
  unfolding end_rotation
  rotate_wal db = end_rotation (Wal.rotate p.config db.wal) db

  unfoldable pub count_flush : Database p → Database p
  count_flush db = record db { stats = record db.stats { flushes = db.stats.flushes + 1 } }

  unfoldable pub end_clear :
      Result (ConcurrentMemtables p.sd p.hash) → Action (Database p) (Unit {0})
  end_clear (raise e) db = (raise e, db)
  end_clear (ok c) db = (ok tt, record db { memtable = concurrent c })

  unfoldable pub clear_in : Source p → ℕ → Action (Database p) (Unit {0})
  unfolding end_clear
  clear_in (single m) index db = (ok tt, db)
  clear_in (concurrent c) index db = end_clear (Concurrent.clear_memtable p.sd p.hash index c) db

  -- self.memtable.clear_memtable(index)
  unfoldable pub clear_shard : ℕ → Action (Database p) (Unit {0})
  unfolding clear_in
  clear_shard index db = clear_in db.memtable index db

  -- the loop over the full memtables
  unfoldable pub flush_each : List (ℕ × Memtable p.sd) → Action (Database p) (Unit {0})
  unfolding write_table clear_shard
  flush_each [] = pure tt
  flush_each ((index, m) ∷ ms) =
      let rest = flush_each ms in
      if Table.get_count p.sd m == 0
      then rest
      else write_table (Table.get_sorted_entries p.sd m) >> (clear_shard index >> rest)

  unfoldable pub flush_memtables : ConcurrentMemtables p.sd p.hash → Action (Database p) (Unit {0})
  unfolding flush_each rotate_wal count_flush
  flush_memtables c = do
    flush_each (Concurrent.get_full_memtables p.sd p.hash p.config c)
    rotate_wal
    modify count_flush

  unfoldable pub flush_memtable : Memtable p.sd → Action (Database p) (Unit {0})
  unfolding write_table rotate_wal count_flush
  flush_memtable m = if Table.get_count p.sd m == 0 then pure tt else do
    write_table (Table.get_sorted_entries p.sd m)
    modify (λ db. record db { memtable = single (Table.clear p.sd m) })
    rotate_wal
    modify count_flush

  unfoldable pub flush_of : Source p → Action (Database p) (Unit {0})
  unfolding flush_memtables flush_memtable
  flush_of (concurrent c) = flush_memtables c
  flush_of (single m) = flush_memtable m

  -- `if isinstance(self.memtable, ConcurrentMemtables): … else: …`
  unfoldable pub flush_source : Action (Database p) (Unit {0})
  unfolding flush_of
  flush_source db = flush_of db.memtable db
