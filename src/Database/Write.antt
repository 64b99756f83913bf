-- ===== src/Database/Write.antt =====
-- `set` and `delete`.
use yellowdb.Prelude.{
  ℕ, ◌+◌, ◌*◌, ◌≡◌, refl, ap, Bool, true, false, Option, none, some, [], ltb, if◌then◌else◌,
}
use yellowdb.Errors.{Result, ok, raise}
use yellowdb.Text.{Key, Bytes}
use yellowdb.Actions.{Action, modify, ◌>>=◌, ◌>>◌}
use yellowdb.Cache.Defs as Cache
use yellowdb.Cache.Defs.{WriteThroughCache}
use yellowdb.Wal.Defs as Wal
use yellowdb.Platform.{Platform}
use yellowdb.Database.Source
use yellowdb.Database.Source.{Source}
use yellowdb.Database.State.{
  Database, Clock, check_open, validate_key, validate_value, get_timestamp,
}
use yellowdb.Database.Flush.{flush_source}
use yellowdb.Database.Compaction.{check_compaction}

module _ (p : Platform) where
  -- self.wal.write(key, value, timestamp, deleted)
  unfoldable pub write_wal : Key → Bytes → ℕ → Bool → Action (Database p) (Unit {0})
  write_wal key value timestamp deleted db =
      let (r, w) = Wal.write p.z p.config key value timestamp deleted db.wal in
      (r, record db { wal = w })

  unfoldable pub store_memtable : Result (Source p) → Action (Database p) (Unit {0})
  store_memtable (raise e) db = (raise e, db)
  store_memtable (ok m) db = (ok tt, record db { memtable = m })

  -- a method of `self.memtable` that leaves it as it is when it raises
  unfoldable pub change_memtable : (Source p → Result (Source p)) → Action (Database p) (Unit {0})
  unfolding store_memtable
  change_memtable f db = store_memtable (f db.memtable) db

  pub store_memtable_inv :
      (r : Result (Source p)) (db db' : Database p)
      → store_memtable r db ≡ (ok tt, db')
      → (m : Source p) × (r ≡ ok m) × (record db { memtable = m } ≡ db')
  unfolding store_memtable
  store_memtable_inv (raise e) db db' h = absurd (cc)
  store_memtable_inv (ok m) db db' h = (m, refl, ap (λ r. r.1) h)

  unfoldable pub put_in :
      Key → Bytes → ℕ → Bool → Option WriteThroughCache → Option WriteThroughCache
  put_in key value timestamp deleted none = none
  put_in key value timestamp deleted (some c) = some (Cache.put key value timestamp deleted c)

  -- `if self.cache: self.cache.put(…)`
  unfoldable pub put_cache : Key → Bytes → ℕ → Bool → Database p → Database p
  unfolding put_in
  put_cache key value timestamp deleted db = record db {
    cache = put_in key value timestamp deleted db.cache;
  }

  unfoldable pub count_set : Database p → Database p
  count_set db = record db { stats = record db.stats { set_count = db.stats.set_count + 1 } }

  unfoldable pub count_delete : Database p → Database p
  count_delete db = record db {
    stats = record db.stats { delete_count = db.stats.delete_count + 1 };
  }

  unfoldable pub flush_when_full : Action (Database p) (Unit {0})
  unfolding flush_source
  flush_when_full db = if Source.is_full p db.memtable then flush_source p db else (ok tt, db)

  -- more than 10 seconds after the last check
  unfoldable pub compact_when_due : Clock → Action (Database p) (Unit {0})
  unfolding check_compaction
  compact_when_due clock db =
      if ltb (db.last_compaction_check + 10 * 1000000) clock.check
      then check_compaction p (record db { last_compaction_check = clock.reset })
      else (ok tt, db)

  unfoldable pub set : Key → Bytes → Clock → Action (Database p) (Unit {0})
  unfolding check_open validate_key validate_value get_timestamp write_wal change_memtable put_cache
      count_set flush_when_full compact_when_due
  set key value clock = do
    check_open p
    validate_key p key
    validate_value p value
    timestamp ← get_timestamp p clock
    write_wal key value timestamp false
    change_memtable (Source.put p key value timestamp false)
    modify (put_cache key value timestamp false)
    modify count_set
    flush_when_full
    compact_when_due clock

  unfoldable pub delete : Key → Clock → Action (Database p) (Unit {0})
  unfolding check_open validate_key get_timestamp write_wal change_memtable put_cache count_delete
      flush_when_full
  delete key clock = do
    check_open p
    validate_key p key
    timestamp ← get_timestamp p clock
    write_wal key [] timestamp true
    change_memtable (Source.delete p key timestamp)
    modify (put_cache key [] timestamp true)
    modify count_delete
    flush_when_full
