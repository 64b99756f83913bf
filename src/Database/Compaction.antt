-- ===== src/Database/Compaction.antt =====
-- `_check_compaction` and `_perform_compaction`. An exception is swallowed, but what was changed
-- before it stays.
use yellowdb.Prelude.{ℕ, ◌+◌, Option, none, some, if◌then◌else◌}
use yellowdb.Errors.{Result, ok, raise}
use yellowdb.Actions.{Action}
use yellowdb.Serializer.KeyCache.{KeyCache}
use yellowdb.Compactor.Defs.{needs_compaction, select_compaction_range, compact_levels, Compactor}
use yellowdb.Platform.{Platform}
use yellowdb.Database.State.{Database}

module _ (p : Platform) where
  -- the statements behind `self.compactor.compact_levels(…)`, whose end is the first argument
  unfoldable pub end_compaction :
      Result (Unit {0}) × Compactor × KeyCache → Action (Database p) (Unit {0})
  end_compaction (raise e, c, keys') db =
      (ok tt, record db { compactor = c; wal = record db.wal { keys = keys' } })
  end_compaction (ok _, c, keys') db = (
    ok tt,
    record db {
      compactor = c;
      wal = record db.wal { keys = keys' };
      stats = record db.stats { compactions = db.stats.compactions + 1 };
    },
  )

  unfoldable pub compact_range : Option (ℕ × ℕ) → Action (Database p) (Unit {0})
  unfolding compact_levels end_compaction
  compact_range none db = (ok tt, db)
  compact_range (some (from_level, to_level)) db =
      end_compaction (compact_levels p from_level to_level db.compactor db.wal.keys) db

  unfoldable pub perform_compaction : Action (Database p) (Unit {0})
  unfolding select_compaction_range compact_range
  perform_compaction db = compact_range (select_compaction_range p.config db.compactor) db

  unfoldable pub check_compaction : Action (Database p) (Unit {0})
  unfolding needs_compaction perform_compaction
  check_compaction db =
      if needs_compaction p.config db.compactor then perform_compaction db else (ok tt, db)
