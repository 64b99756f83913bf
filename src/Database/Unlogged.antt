-- ===== src/Database/Unlogged.antt =====
-- What `get` leaves alone.
use yellowdb.Prelude.{
  ℕ, Bool, ap, ◌≡◌, refl, Option, none, some, length, Bool-cases, inl, inr, ◌==◌,
}
use yellowdb.Errors.{Result, ok, raise}
use yellowdb.Text.{Key}
use yellowdb.Actions.{Action, continue, ◌>>=◌, ◌>>◌}
use yellowdb.Cache.Defs.{Version, WriteThroughCache}
use yellowdb.Cache.Defs as Cache
use yellowdb.Compactor.Defs.{search_key}
use yellowdb.Memtable.Table.{MemtableEntry}
use yellowdb.Platform.{Platform}
use yellowdb.Database.Source.{Source}
use yellowdb.Database.Source
use yellowdb.Database.State.{Database, check_open, validate_key}
use yellowdb.Database.Write.{put_cache}
use yellowdb.Database.Read.{
  get, ask, ask_cache, end_ask, end_search, end_memtable, get_stored, answer, count_get, count_hit,
  count_miss,
}
use yellowdb.Wal.Defs.{Wal}

module _ (p : Platform) where
  -- what `get` leaves alone
  abbrev pub outer : Database p → Wal × Bool × ℕ
  outer db = (db.wal, db.closed, db.timestamp_counter)

  end_search-outer :
      (key : Key) (o : Option Version) (db : Database p)
      → outer (end_search p key o db).1 ≡ outer db
  unfolding end_search count_get put_cache
  end_search-outer key none db = refl
  end_search-outer key (some v) db = refl

  end_memtable-outer :
      (key : Key) (r : Result (Option MemtableEntry)) (db : Database p)
      → outer (end_memtable p key r db).1 ≡ outer db
  unfolding end_memtable count_get
  end_memtable-outer key (raise e) db = refl
  end_memtable-outer key (ok none) db = end_search-outer key (search_key p key db.compactor) db
  end_memtable-outer key (ok (some e)) db = refl

  end_ask-outer :
      (key : Key) (r : Option Version × WriteThroughCache) (db : Database p)
      → outer (continue (end_ask p r db) (answer p key)).1 ≡ outer db
  unfolding end_ask continue answer get_stored count_miss count_hit count_get
  end_ask-outer key (none, c) db = end_memtable-outer key _ _
  end_ask-outer key (some v, c) db = refl

  ask-outer :
      (key : Key) (c : Option WriteThroughCache) (db : Database p)
      → outer (continue (ask p key c db) (answer p key)).1 ≡ outer db
  unfolding ask continue answer get_stored
  ask-outer key none db = end_memtable-outer key (Source.get p key db.memtable) db
  ask-outer key (some c) db = end_ask-outer key (Cache.get key c) db

  continue-outer :
      {A : Type 0} (r : Result (Unit {0})) (db : Database p) (k : Action (Database p) A)
      → outer (k db).1 ≡ outer db
      → outer (continue (r, db) (λ _. k)).1 ≡ outer db
  unfolding continue
  continue-outer (raise e) db k h = refl
  continue-outer (ok a) db k h = h

  -- behind a test that changes nothing
  test-outer :
      {A : Type 0} (m : Action (Database p) (Unit {0})) (db : Database p)
      (k : Action (Database p) A)
      → (r : Result (Unit {0})) × (m db ≡ (r, db))
      → outer (k db).1 ≡ outer db
      → outer ((m >> k) db).1 ≡ outer db
  unfolding ◌>>=◌
  test-outer m db k (r, e) h = rw e (continue-outer r db k h)

  validate_key-test :
      (key : Key) (db : Database p) → (r : Result (Unit {0})) × (validate_key p key db ≡ (r, db))
  unfolding validate_key ◌>>=◌ continue
  validate_key-test key db = elim (Bool-cases (length key == 0)) [
    | inl q ↦ rw q (_, refl)
    | inr q ↦ rw q (_, refl)
  ]

  pub get-outer : (key : Key) (db : Database p) → outer (get p key db).1 ≡ outer db
  unfolding get check_open ask_cache ◌>>=◌
  get-outer key db =
      test-outer (check_open p) db (validate_key p key >> (ask_cache p key >>= answer p key))
        (_, refl)
        (test-outer (validate_key p key) db (ask_cache p key >>= answer p key)
          (validate_key-test key db) (ask-outer key db.cache db))

  pub get-wal : (key : Key) (db : Database p) → (get p key db).1.wal ≡ db.wal
  get-wal key db = ap (λ (x : Wal × Bool × ℕ). x.0) (get-outer key db)
