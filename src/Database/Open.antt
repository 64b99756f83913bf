-- ===== src/Database/Open.antt =====
-- `__init__` and `_recover_from_wal`. The exception that ends the recovery is swallowed.
use yellowdb.Prelude.{ℕ, false, none, some, List, [], ◌∷◌, if◌then◌else◌}
use yellowdb.Errors.{Result, ok, raise}
use yellowdb.Cache.Defs as Cache
use yellowdb.Serializer.KeyCache.{KeyCache}
use yellowdb.Wal.Defs as Wal
use yellowdb.Wal.Defs.{WalFile}
use yellowdb.Wal.Recover.{Entry, recover}
use yellowdb.Compactor.Defs as Compactor
use yellowdb.Platform.{Platform}
use yellowdb.Database.Source
use yellowdb.Database.Source.{Source, fresh}
use yellowdb.Database.State.{Database, Stats}

abbrev pub no_stats : Stats
no_stats = record {
  get_count = 0;
  set_count = 0;
  delete_count = 0;
  compactions = 0;
  flushes = 0;
  cache_hits = 0;
  cache_misses = 0;
}

module _ (p : Platform) where
  -- what follows a `put` into `m` that ended like this
  unfoldable pub then_replay : Result (Source p) → Source p → (Source p → Source p) → Source p
  then_replay (raise x) m rest = m
  then_replay (ok m') m rest = rest m'

  -- the loop of `_recover_from_wal`
  unfoldable pub replay : List Entry → Source p → Source p
  unfolding then_replay
  replay [] m = m
  replay (e ∷ es) m = then_replay (Source.put p e.key e.value e.timestamp e.deleted m) m (replay es)

  -- `YellowDB(data_directory)` at time `now`, where the directory holds the log files `files`
  unfoldable pub open_database : List WalFile → KeyCache → ℕ → Database p
  unfolding replay recover fresh
  open_database files keys now =
      let wal = Wal.new p.config files keys in
      record {
        closed = false;
        memtable = replay (recover p.z wal) (fresh p);
        wal = wal;
        compactor = Compactor.new;
        cache = if p.config.enable_cache then some (Cache.new p.config none) else none;
        sequence_number = 0;
        timestamp_counter = 0;
        last_compaction_check = now;
        stats = no_stats;
      }
