-- ===== src/Database/Close.antt =====
-- The methods for the whole database.
use yellowdb.Prelude.{ℕ, Bool, true, none, some, [], map, if◌then◌else◌}
use yellowdb.Errors.{Result, ok, raise}
use yellowdb.Actions.{Action, modify, ◌>>◌}
use yellowdb.Cache.Defs as Cache
use yellowdb.Serializer.KeyCache.{clear_key_cache}
use yellowdb.Wal.Defs as Wal
use yellowdb.Wal.Defs.{Wal}
use yellowdb.SsTable.Files as Files
use yellowdb.Compactor.Defs as Compactor
use yellowdb.Platform.{Platform}
use yellowdb.Database.Source
use yellowdb.Database.State.{Database, Stats, check_open}
use yellowdb.Database.Flush.{flush_source}
use yellowdb.Database.Compaction.{perform_compaction}

module _ (p : Platform) where
  unfoldable pub flush : Action (Database p) (Unit {0})
  unfolding check_open flush_source
  flush = do check_open p; flush_source p

  unfoldable pub compact : Action (Database p) (Unit {0})
  unfolding check_open perform_compaction
  compact = do check_open p; perform_compaction p

  unfoldable pub end_close : Result Wal → Action (Database p) (Unit {0})
  end_close (raise e) db = (raise e, db)
  end_close (ok w) db = (ok tt, record db { wal = w })

  -- self.wal.close()
  unfoldable pub close_wal : Action (Database p) (Unit {0})
  unfolding end_close
  close_wal db = end_close (Wal.close p.config db.wal) db

  unfoldable pub close : Action (Database p) (Unit {0})
  unfolding check_open flush_source close_wal
  close = do check_open p; flush_source p; close_wal; modify (λ db. record db { closed = true })

  -- shutil.rmtree(self.data_directory)
  unfoldable pub remove_files : Database p → Database p
  remove_files db = record db {
    wal = record db.wal { files = [] };
    compactor = record db.compactor { levels = λ n. map Files.delete (db.compactor.levels n) };
  }

  unfoldable pub destroy : Action (Database p) (Unit {0})
  unfolding check_open close remove_files
  destroy = do check_open p; close; modify remove_files

  -- the dictionary that `stats` returns
  pub record Report : Type 0 where
    pub stats : Stats
    pub wal_entries : ℕ
    pub wal_size : ℕ
    pub memtable_entries : ℕ
    pub memtable_size : ℕ
    pub cache_entries : ℕ
    pub cache_size : ℕ
    pub compactor : Compactor.Stats

  unfoldable pub report : Database p → Report
  report db = record {
    stats = db.stats;
    wal_entries = Wal.get_entry_count db.wal;
    wal_size = Wal.get_size db.wal;
    memtable_entries = Source.count p db.memtable;
    memtable_size = Source.size p db.memtable;
    cache_entries = elim db.cache [ none ↦ 0 | some c ↦ Cache.get_count c ];
    cache_size = elim db.cache [ none ↦ 0 | some c ↦ Cache.get_size c ];
    compactor = Compactor.get_stats p.config db.compactor;
  }

  unfoldable pub is_closed : Database p → Bool
  is_closed db = db.closed

  unfoldable pub clear_keys : Database p → Database p
  clear_keys db = record db { wal = record db.wal { keys = clear_key_cache db.wal.keys } }

  -- `__exit__`
  unfoldable pub exit : Action (Database p) (Unit {0})
  unfolding close
  exit db = if db.closed then (ok tt, db) else close db
