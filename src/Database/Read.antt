-- ===== src/Database/Read.antt =====
-- `get`.
use yellowdb.Prelude.{◌+◌, Bool, Option, none, some, if◌then◌else◌}
use yellowdb.Errors.{Result, ok, raise}
use yellowdb.Text.{Key, Bytes}
use yellowdb.Actions.{Action, pure, ◌>>=◌, ◌>>◌}
use yellowdb.Cache.Defs as Cache
use yellowdb.Cache.Defs.{Version, WriteThroughCache}
use yellowdb.Memtable.Table.{MemtableEntry}
use yellowdb.Compactor.Defs.{search_key}
use yellowdb.Platform.{Platform}
use yellowdb.Database.Source
use yellowdb.Database.State.{Database, check_open, validate_key}
use yellowdb.Database.Write.{put_cache}

-- `None` for a deletion
abbrev pub visible : Bytes → Bool → Option Bytes
visible value deleted = if deleted then none else some value

module _ (p : Platform) where
  unfoldable pub count_get : Database p → Database p
  count_get db = record db { stats = record db.stats { get_count = db.stats.get_count + 1 } }

  unfoldable pub count_hit : Database p → Database p
  count_hit db = record db { stats = record db.stats { cache_hits = db.stats.cache_hits + 1 } }

  unfoldable pub count_miss : Database p → Database p
  count_miss db = record db { stats = record db.stats { cache_misses = db.stats.cache_misses + 1 } }

  -- the statements behind `cached = self.cache.get(key)`, with what that call gives
  unfoldable pub end_ask : Option Version × WriteThroughCache → Action (Database p) (Option Version)
  unfolding count_hit count_miss count_get
  end_ask (none, c) db = (ok none, count_miss (record db { cache = some c }))
  end_ask (some v, c) db = (ok (some v), count_get (count_hit (record db { cache = some c })))

  unfoldable pub ask : Key → Option WriteThroughCache → Action (Database p) (Option Version)
  unfolding end_ask
  ask key none db = (ok none, db)
  ask key (some c) db = end_ask (Cache.get key c) db

  -- `if self.cache: cached = self.cache.get(key); …`
  unfoldable pub ask_cache : Key → Action (Database p) (Option Version)
  unfolding ask
  ask_cache key db = ask key db.cache db

  -- the statements behind `result = self.compactor.search_key(key)`
  unfoldable pub end_search : Key → Option Version → Action (Database p) (Option Bytes)
  unfolding count_get put_cache
  end_search key none db = (ok none, count_get db)
  end_search key (some v) db =
      (ok (visible v.value v.deleted), put_cache p key v.value v.timestamp v.deleted (count_get db))

  -- the statements behind `entry = self.memtable.get(key)`
  unfoldable pub end_memtable :
      Key → Result (Option MemtableEntry) → Action (Database p) (Option Bytes)
  unfolding end_search count_get search_key
  end_memtable key (raise e) db = (raise e, db)
  end_memtable key (ok none) db = end_search key (search_key p key db.compactor) db
  end_memtable key (ok (some e)) db = (ok (visible e.value e.deleted), count_get db)

  unfoldable pub get_stored : Key → Action (Database p) (Option Bytes)
  unfolding end_memtable
  get_stored key db = end_memtable key (Source.get p key db.memtable) db

  unfoldable pub answer : Key → Option Version → Action (Database p) (Option Bytes)
  unfolding get_stored
  answer key none = get_stored key
  answer key (some v) = pure (visible v.value v.deleted)

  unfoldable pub get : Key → Action (Database p) (Option Bytes)
  unfolding check_open validate_key ask_cache answer
  get key = do check_open p; validate_key p key; cached ← ask_cache key; answer key cached
