-- ===== src/Examples/Backing.antt =====
-- A database as the store of the examples.
use yellowdb.Prelude.{
  ℕ, ◌+◌, ◌*◌, ◌≤◌, ◌<◌, ◌≡◌, refl, ap, ◌∙◌, Bool, true, false, Option, none, some, List, [], ◌∷◌,
  All, length, if◌then◌else◌, arith,
}
use yellowdb.Errors.{Result, ok, raise}
use yellowdb.Text.{Key, Bytes}
use yellowdb.Text.Order.{key_eq, key_eq_refl, key_eq_iff, key_le}
use yellowdb.Dict.{Dict, lookup}
use yellowdb.Actions.{◌>>◌}
use yellowdb.Wal.Defs.{Wal}
use yellowdb.Database.Unlogged.{get-outer}
use yellowdb.Memtable.Sorted.{IsSorted}
use yellowdb.Platform.{Platform}
use yellowdb.Database.State.{Database, Clock}
use yellowdb.Database.Write.{set, delete}
use yellowdb.Database.Read.{get}
use yellowdb.Database.Close as Close
use yellowdb.Database.View.{IsCoherent, stored_value, get-eq-stored_value}
use yellowdb.Database.ReadWrite.{Fits, set-View, delete-View}
use yellowdb.Iterators.Defs.{Cursor, scan, scan_entries, from_start}
use yellowdb.Iterators.Scan.{scan_lem}
use yellowdb.Batch.{Operation, put_operation, delete_operation, commit, apply, exit}
use yellowdb.Examples.Store.{Store}

-- If no key that fails the test can be looked up, every key passes it.
all_pass :
    (test : Key → Bool) (d : Dict Bytes)
    → ((j : Key) → test j ≡ false → lookup j d ≡ none)
    → All (λ (e : Key × Bytes). test e.0 ≡ true) d
unfolding lookup
all_pass test [] h = tt
all_pass test ((k, v) ∷ d) h = (
  ground (arith, h k, key_eq_refl k),
  all_pass test d (λ j f. ground (arith, h j f, key_eq_iff k j, h k, key_eq_refl k)),
)

module _ (p : Platform) where
  unfoldable pub entries_of : Result Cursor → Result (List (Key × Bytes))
  entries_of (raise e) = raise e
  entries_of (ok c) = ok c.entries

  pub scan_ready :
      (start_key : Key) (db : Database p)
      → IsCoherent p db
      → db.closed ≡ false
      → (es : List (Key × Bytes)) × (entries_of (scan p (some start_key) db) ≡ ok es)
        × IsSorted es
        × All (λ (e : Key × Bytes). key_le start_key e.0 ≡ true) es
  unfolding entries_of scan from_start
  scan_ready start_key db c open' =
      let (s, l) = scan_lem p db.memtable db.compactor (some start_key) c.memtable in
      (
        scan_entries p db.memtable db.compactor (some start_key),
        rw open' refl,
        s,
        all_pass (λ j. key_le start_key j) _ (λ j f. let (o, e, r, n, q) = l j in rw f at q),
      )

  abbrev Ready : Database p → Type 0
  Ready db = IsCoherent p db × (db.closed ≡ false)

  abbrev value_in : Key → Database p → Result (Option Bytes)
  value_in key db = stored_value p key db.memtable db.compactor

  pub get-Ready :
      (key : Key) (db : Database p)
      → Ready db
      → 0 < length key
      → length key ≤ 1024
      → ((get p key db).0 ≡ value_in key db)
        × Ready (get p key db).1
        × ((j : Key) → value_in j (get p key db).1 ≡ value_in j db)
  get-Ready key db (c, open') h k =
      let (e, m, t, c') = get-eq-stored_value p key db c open' h k in
      (e, (c', ap (λ (x : Wal × Bool × ℕ). x.1) (get-outer p key db) ∙ open'), λ j. rw (m, t) refl)

  pub set-Ready :
      (key : Key) (value : Bytes) (clock : Clock) (db db' : Database p)
      → Ready db
      → Fits p key value false db × (clock.check ≤ db.last_compaction_check + 10 * 1000000)
      → set p key value clock db ≡ (ok tt, db')
      → Ready db'
        × ((j : Key) → value_in j db' ≡ (if key_eq key j then ok (some value) else value_in j db))
  set-Ready key value clock db db' (c, o) (f, d) h =
      let (c', o', v) = set-View p key value clock db db' c h f d in ((c', o'), v)

  pub delete-Ready :
      (key : Key) (clock : Clock) (db db' : Database p)
      → Ready db
      → Fits p key [] true db
      → delete p key clock db ≡ (ok tt, db')
      → Ready db' × ((j : Key) → value_in j db' ≡ (if key_eq key j then ok none else value_in j db))
  delete-Ready key clock db db' (c, o) f h =
      let (c', o', v) = delete-View p key clock db db' c h f in ((c', o'), v)

  -- when a write has room: the memtable is not full then, and no check for compaction is due
  abbrev Room : Key → Bytes → Bool → Clock → Database p → Type 0
  Room key value deleted clock db =
      Fits p key value deleted db × (clock.check ≤ db.last_compaction_check + 10 * 1000000)

  pub batch_nil : (db : Database p) → exit p false [] db ≡ (ok tt, db)
  unfolding exit commit
  batch_nil db = refl

  pub batch_put :
      (key : Key) (value : Bytes) (clock : Clock) (os : List (Operation × Clock)) (db : Database p)
      → exit p false ((put_operation key value, clock) ∷ os) db
        ≡ (set p key value clock >> exit p false os) db
  unfolding exit commit apply
  batch_put key value clock os db = refl

  pub batch_delete :
      (key : Key) (clock : Clock) (os : List (Operation × Clock)) (db : Database p)
      → exit p false ((delete_operation key, clock) ∷ os) db
        ≡ (delete p key clock >> exit p false os) db
  unfolding exit commit apply
  batch_delete key clock os db = refl

  abbrev pub database_store : Store
  database_store = record {
    S = Database p;
    set = set p;
    get = get p;
    delete = delete p;
    scan = λ start_key db. entries_of (scan p start_key db);
    batch = exit p false;
    close = Close.close p;
    memtable_size = λ db. (Close.report p db).memtable_size;
    cache_entries = λ db. (Close.report p db).cache_entries;
    IsReady = Ready;
    HasRoom = Room;
    value_at = value_in;
    set_lem = set-Ready;
    delete_lem = λ key clock db db' r f. delete-Ready key clock db db' r f.0;
    get_lem = get-Ready;
    scan_lem = λ start_key db r. scan_ready start_key db r.0 r.1;
    batch-nil = batch_nil;
    batch-put = batch_put;
    batch-delete = batch_delete;
  }
