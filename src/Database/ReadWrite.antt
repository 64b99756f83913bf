-- ===== src/Database/ReadWrite.antt =====
-- `get` after `set` and `delete`, between flushes and compactions.
use yellowdb.Prelude.{
  ℕ, ◌+◌, ◌*◌, ◌≤◌, ◌<◌, ◌≡◌, refl, Bool, true, false, Option, none, some, [], ◌∙◌, sym, ap, subst,
  arith, length, ltb, leb, Bool-cases, inl, inr, if◌then◌else◌,
}
use yellowdb.Errors.{Result, ok}
use yellowdb.Text.{Key, Bytes}
use yellowdb.Text.Order.{key_eq, key_eq_refl}
use yellowdb.Wal.Defs.{Wal}
use yellowdb.Cache.Defs.{WriteThroughCache, Version}
use yellowdb.Cache.Defs as Cache
use yellowdb.Cache.Reads as CacheReads
use yellowdb.Cache.Laws as CacheLaws
use yellowdb.Platform.{Platform}
use yellowdb.Database.Source
use yellowdb.Database.Source.{Source, put}
use yellowdb.Database.SourceLaws
use yellowdb.Database.State.{Database, Clock}
use yellowdb.Database.Write.{
  set, delete, put_in, put_cache, count_set, count_delete, flush_when_full, compact_when_due,
}
use yellowdb.Dict.{lookup}
use yellowdb.Actions.{continue}
use yellowdb.Database.Read.{visible, get, ask, end_ask, answer}
use yellowdb.Database.Inversion.{stored, set_inv, delete_inv}
use yellowdb.Database.Keeps.{front, upper, flush_when_full-Keeps, compact_when_due-Keeps}
use yellowdb.Database.View.{
  found_in, stored_value, IsCoherent, put_in-Agrees, get-eq-stored_value, get-run,
}

module _ (p : Platform) where
  -- the memtable with the entry is not full
  abbrev pub Fits : Key → Bytes → Bool → Database p → Type 0
  Fits key value deleted db =
      (n : ℕ) (m : Source p)
      → put p key value n deleted db.memtable ≡ ok m
      → Source.is_full p m ≡ false

  -- the value that a key has after a write to `key`
  abbrev pub changed : Key → Option Bytes → Database p → Key → Result (Option Bytes)
  changed key o db j = if key_eq key j then ok o else stored_value p j db.memtable db.compactor

  stored_value-put :
      (key : Key) (value : Bytes) (n : ℕ) (deleted : Bool) (db : Database p) (m : Source p)
      → SourceLaws.IsValid p db.memtable
      → put p key value n deleted db.memtable ≡ ok m
      → (j : Key) → stored_value p j m db.compactor ≡ changed key (visible value deleted) db j
  unfolding stored_value found_in
  stored_value-put key value n deleted db m v h j =
      let e = SourceLaws.get-put_source p key value n deleted db.memtable v h j in
      elim (Bool-cases (key_eq key j)) [ inl q ↦ rw (e, q) refl | inr q ↦ rw (e, q) refl ]

  flush_when_full_not :
      (db : Database p) → Source.is_full p db.memtable ≡ false → flush_when_full p db ≡ (ok tt, db)
  unfolding flush_when_full
  flush_when_full_not db h = rw h refl

  compact_when_due_not :
      (clock : Clock) (db : Database p)
      → clock.check ≤ db.last_compaction_check + 10 * 1000000
      → compact_when_due p clock db ≡ (ok tt, db)
  unfolding compact_when_due
  compact_when_due_not clock db h =
      let e : ltb (db.last_compaction_check + 10 * 1000000) clock.check ≡ false = ground arith in
      rw e refl

  stored-IsCoherent :
      (key : Key) (value : Bytes) (n : ℕ) (deleted : Bool) (w : Wal) (m : Source p)
      (db : Database p)
      → IsCoherent p db
      → put p key value n deleted db.memtable ≡ ok m
      → IsCoherent p (stored p key value n deleted w m db)
  unfolding put_cache
  stored-IsCoherent key value n deleted w m db c h =
      let g = stored_value-put key value n deleted db m c.memtable h in
      record {
        memtable = SourceLaws.put-IsValid p key value n deleted db.memtable c.memtable h;
        cache =
            put_in-Agrees p key value n deleted (λ j. stored_value p j db.memtable db.compactor)
              (λ j. stored_value p j m db.compactor) (g key ∙ rw (key_eq_refl key) refl)
              (λ j q. g j ∙ rw q refl) db.cache c.cache;
      }

  pub set-View :
      (key : Key) (value : Bytes) (clock : Clock) (db db' : Database p)
      → IsCoherent p db
      → set p key value clock db ≡ (ok tt, db')
      → Fits key value false db
      → clock.check ≤ db.last_compaction_check + 10 * 1000000
      → IsCoherent p db'
        × (db'.closed ≡ false)
        × ((j : Key) → stored_value p j db'.memtable db'.compactor ≡ changed key (some value) db j)
  unfolding count_set put_cache
  set-View key value clock db db' c h fits due =
      let (n, w, m, db2, en, open', ew, em, ef, ec) = set_inv p key value clock db db' h in
      let db1 = count_set p (stored p key value n false w m db) in
      let e1 = sym (flush_when_full_not db1 (fits n m em)) ∙ ef in
      let q1 : db1 ≡ db2 = ap (λ r. r.1) e1 in
      let e2 = sym (compact_when_due_not clock db1 due) ∙ ap (compact_when_due p clock) q1 ∙ ec in
      let q2 : db1 ≡ db' = ap (λ r. r.1) e2 in
      let c1 = stored-IsCoherent key value n false w m db c em in
      let c2 : IsCoherent p db1 = record { memtable = c1.memtable; cache = c1.cache } in
      subst
        (λ d.
          IsCoherent p d
          × (d.closed ≡ false)
          × ((j : Key) → stored_value p j d.memtable d.compactor ≡ changed key (some value) db j))
        q2 (c2, open', stored_value-put key value n false db m c.memtable em)

  pub delete-View :
      (key : Key) (clock : Clock) (db db' : Database p)
      → IsCoherent p db
      → delete p key clock db ≡ (ok tt, db')
      → Fits key [] true db
      → IsCoherent p db'
        × (db'.closed ≡ false)
        × ((j : Key) → stored_value p j db'.memtable db'.compactor ≡ changed key none db j)
  unfolding count_delete put_cache
  delete-View key clock db db' c h fits =
      let (n, w, m, en, open', ew, em, ef) = delete_inv p key clock db db' h in
      let db1 = count_delete p (stored p key [] n true w m db) in
      let e1 = sym (flush_when_full_not db1 (fits n m em)) ∙ ef in
      let q1 : db1 ≡ db' = ap (λ r. r.1) e1 in
      let c1 = stored-IsCoherent key [] n true w m db c em in
      let c2 : IsCoherent p db1 = record { memtable = c1.memtable; cache = c1.cache } in
      subst
        (λ d.
          IsCoherent p d
          × (d.closed ≡ false)
          × ((j : Key) → stored_value p j d.memtable d.compactor ≡ changed key none db j))
        q1 (c2, open', stored_value-put key [] n true db m c.memtable em)

  -- After a set that does not raise on a coherent database, where the memtable with the new entry
  -- is not full and no check for compaction is due, get of the key returns the new value and get of
  -- any other key of 1 to 1024 code points returns what it returned before; the database stays
  -- coherent.
  pub get-set :
      (key : Key) (value : Bytes) (clock : Clock) (db db' : Database p)
      → IsCoherent p db
      → set p key value clock db ≡ (ok tt, db')
      → Fits key value false db
      → clock.check ≤ db.last_compaction_check + 10 * 1000000
      → IsCoherent p db'
        × ((j : Key)
            → 0 < length j
            → length j ≤ 1024
            → (get p j db').0 ≡ (if key_eq key j then ok (some value) else (get p j db).0))
  get-set key value clock db db' c h fits due =
      let (c', open', view) = set-View key value clock db db' c h fits due in
      let was_open = (set_inv p key value clock db db' h).5 in
      (
        c',
        λ j lo hi.
            let after = (get-eq-stored_value p j db' c' open' lo hi).0 in
            let before = (get-eq-stored_value p j db c was_open lo hi).0 in
            rw before (after ∙ view j),
      )

  -- After a delete that does not raise on a coherent database, where the memtable with the deletion
  -- is not full, get of the key returns None and get of any other key of 1 to 1024 code points
  -- returns what it returned before; the database stays coherent.
  pub get-delete :
      (key : Key) (clock : Clock) (db db' : Database p)
      → IsCoherent p db
      → delete p key clock db ≡ (ok tt, db')
      → Fits key [] true db
      → IsCoherent p db'
        × ((j : Key)
            → 0 < length j
            → length j ≤ 1024
            → (get p j db').0 ≡ (if key_eq key j then ok none else (get p j db).0))
  get-delete key clock db db' c h fits =
      let (c', open', view) = delete-View key clock db db' c h fits in
      let was_open = (delete_inv p key clock db db' h).4 in
      (
        c',
        λ j lo hi.
            let after = (get-eq-stored_value p j db' c' open' lo hi).0 in
            let before = (get-eq-stored_value p j db c was_open lo hi).0 in
            rw before (after ∙ view j),
      )

  cached-get :
      (key : Key) (db : Database p) (c : WriteThroughCache) (v : Version)
      → CacheLaws.IsValid c
      → db.cache ≡ some c
      → lookup key c.entries ≡ some v
      → db.closed ≡ false
      → 0 < length key
      → length key ≤ 1024
      → (get p key db).0 ≡ ok (visible v.value v.deleted)
  unfolding ask end_ask continue answer
  cached-get key db c v valid e l open' lo hi =
      let hit = (CacheReads.get_lem key c valid).0 ∙ l in
      ap (λ r. r.0) (get-run p key db open' lo hi) ∙ rw (e, ask, hit) refl

  -- With a valid cache that a value fits, get of a key of 1 to 1024 code points returns the value
  -- right after a set that does not raise, also when that set has flushed or compacted.
  pub get-set_cached :
      (key : Key) (value : Bytes) (clock : Clock) (db db' : Database p) (c : WriteThroughCache)
      → CacheLaws.IsValid c
      → db.cache ≡ some c
      → length value ≤ c.maximum_size
      → set p key value clock db ≡ (ok tt, db')
      → 0 < length key
      → length key ≤ 1024
      → (get p key db').0 ≡ ok (some value)
  unfolding put_in put_cache count_set
  get-set_cached key value clock db db' c valid e fits h lo hi =
      let (n, w, m, db2, en, open', ew, em, ef, ec) = set_inv p key value clock db db' h in
      let db1 = count_set p (stored p key value n false w m db) in
      let k1 = sym (ap (λ r. front p r.1) ef) ∙ flush_when_full-Keeps p db1 in
      let k2 = sym (ap (λ r. upper p r.1) ec) ∙ compact_when_due-Keeps p clock db2 in
      let cached : db'.cache ≡ some (Cache.put key value n false c) =
        ap (λ u. u.1) k2 ∙ ap (λ u. u.0) k1 ∙ ap (λ o. put_in p key value n false o) e in
      let found = CacheReads.lookup-put_self key value n false c valid in
      let room : leb (length value) c.maximum_size ≡ true = ground arith in
      cached-get key db' (Cache.put key value n false c) (CacheReads.version key value n false c)
        (CacheReads.put-IsValid key value n false c valid) cached (found ∙ rw room refl)
        (ap (λ u. u.2) k2 ∙ ap (λ u. u.1) k1 ∙ open') lo hi
