-- ===== src/Database/View.antt =====
-- What the database stores for a key without the cache, and `get`.
use yellowdb.Prelude.{
  ℕ, ◌≤◌, ◌<◌, ◌≡◌, refl, Bool, true, false, Option, none, some, ◌∙◌, sym, ap, subst, arith, length,
  ltb, ◌==◌, inl, inr, if◌then◌else◌, Bool-cases,
}
use yellowdb.Errors.{Result, ok, raise, invalid_key_error}
use yellowdb.Text.{Key, Bytes}
use yellowdb.Text.Order.{key_eq, key_eq_iff}
use yellowdb.Actions.{continue, raise_if, >>=-ok, >>=-eq-continue}
use yellowdb.Dict.{lookup}
use yellowdb.Cache.Defs as Cache
use yellowdb.Cache.Defs.{Version, WriteThroughCache}
use yellowdb.Cache.Laws as CacheLaws
use yellowdb.Cache.Reads as CacheReads
use yellowdb.Memtable.Table.{MemtableEntry}
use yellowdb.Compactor.Defs.{Compactor, search_key}
use yellowdb.Platform.{Platform}
use yellowdb.Database.Source
use yellowdb.Database.Source.{Source}
use yellowdb.Database.SourceLaws
use yellowdb.Database.State.{Database, check_open, validate_key}
use yellowdb.Database.Write.{put_in, put_cache}
use yellowdb.Database.Read.{
  visible, get, ask, ask_cache, end_ask, end_search, end_memtable, get_stored, answer, count_get,
  count_hit, count_miss,
}

if_some_inv : {A : Type 0} {x y : A} (b : Bool) → (if b then some x else none) ≡ some y → x ≡ y
if_some_inv true h = cc
if_some_inv false h = absurd (cc)

-- The memtable hides the tables.
unfoldable pub found_in : Result (Option MemtableEntry) → Option Version → Result (Option Bytes)
found_in (raise e) o = raise e
found_in (ok none) none = ok none
found_in (ok none) (some v) = ok (visible v.value v.deleted)
found_in (ok (some e)) o = ok (visible e.value e.deleted)

module _ (p : Platform) where
  -- what is stored for a key, without the cache
  unfoldable pub stored_value : Key → Source p → Compactor → Result (Option Bytes)
  unfolding found_in
  stored_value key m c = found_in (Source.get p key m) (search_key p key c)

  -- Every version in the cache is what is stored.
  abbrev pub Agrees : Option WriteThroughCache → (Key → Result (Option Bytes)) → Type 0
  Agrees none f = Unit
  Agrees (some c) f =
      CacheLaws.IsValid c
      × ((j : Key) (v : Version)
          → lookup j c.entries ≡ some v
          → f j ≡ ok (visible v.value v.deleted))

  pub record IsCoherent (db : Database p) : Type 0 where
    pub memtable : SourceLaws.IsValid p db.memtable
    pub cache : Agrees db.cache (λ j. stored_value j db.memtable db.compactor)

  module _ (key : Key) (value : Bytes) (timestamp : ℕ) (deleted : Bool)
      (f g : Key → Result (Option Bytes)) (self : g key ≡ ok (visible value deleted))
      (other : (j : Key) → key_eq key j ≡ false → g j ≡ f j) where
    put-Agrees :
        (c : WriteThroughCache)
        → Agrees (some c) f
        → (j : Key) (x : Version)
        → lookup j (Cache.put key value timestamp deleted c).entries ≡ some x
        → g j ≡ ok (visible x.value x.deleted)
    put-Agrees c (v, a) j x h = elim (Bool-cases (key_eq key j)) [
      | inl q ↦
          let e : key ≡ j = (key_eq_iff key j).0 q in
          let l = CacheReads.lookup-put_self key value timestamp deleted c v in
          let same : CacheReads.version key value timestamp deleted c ≡ x = if_some_inv _ (
            sym l ∙ (ap (λ k. lookup k (Cache.put key value timestamp deleted c).entries) e ∙ h)) in
          rw (← e, ← same) self
      | inr q ↦ elim (CacheReads.lookup-put_ne key value timestamp deleted c j v q) [
        | inl n ↦ absurd (let t : none ≡ some x = sym n ∙ h in cc)
        | inr n ↦ other j q ∙ a j x (sym n ∙ h)
      ]
    ]

    pub put_in-Agrees :
        (c : Option WriteThroughCache)
        → Agrees c f
        → Agrees (put_in p key value timestamp deleted c) g
    unfolding put_in
    put_in-Agrees none a = tt
    put_in-Agrees (some c) a =
        (CacheReads.put-IsValid key value timestamp deleted c a.0, put-Agrees c a)

  -- what a `get` leaves: the memtable and the tables as they were, and a cache that agrees
  abbrev pub Left : Database p → Database p → Type 0
  Left db db' =
      (db'.memtable ≡ db.memtable)
      × (db'.compactor ≡ db.compactor)
      × Agrees db'.cache (λ j. stored_value j db.memtable db.compactor)

  end_search_lem :
      (key : Key) (db : Database p) (o : Option Version)
      → Agrees db.cache (λ j. stored_value j db.memtable db.compactor)
      → stored_value key db.memtable db.compactor ≡ found_in (ok none) o
      → ((end_search p key o db).0 ≡ found_in (ok none) o) × Left db (end_search p key o db).1
  unfolding end_search count_get found_in put_cache
  end_search_lem key db none a self = (refl, (refl, refl, a))
  end_search_lem key db (some v) a self = (
    refl,
    (
      refl,
      refl,
      put_in-Agrees key v.value v.timestamp v.deleted (λ j. stored_value j db.memtable db.compactor)
          (λ j. stored_value j db.memtable db.compactor) self (λ j q. refl) db.cache a,
    ),
  )

  end_memtable_lem :
      (key : Key) (db : Database p) (r : Result (Option MemtableEntry))
      → Agrees db.cache (λ j. stored_value j db.memtable db.compactor)
      → stored_value key db.memtable db.compactor ≡ found_in r (search_key p key db.compactor)
      → ((end_memtable p key r db).0 ≡ found_in r (search_key p key db.compactor))
        × Left db (end_memtable p key r db).1
  unfolding end_memtable found_in count_get
  end_memtable_lem key db (raise e) a self = (refl, (refl, refl, a))
  end_memtable_lem key db (ok none) a self =
      end_search_lem key db (search_key p key db.compactor) a self
  end_memtable_lem key db (ok (some e)) a self = (refl, (refl, refl, a))

  get_stored_lem :
      (key : Key) (db : Database p)
      → Agrees db.cache (λ j. stored_value j db.memtable db.compactor)
      → ((get_stored p key db).0 ≡ stored_value key db.memtable db.compactor)
        × Left db (get_stored p key db).1
  unfolding get_stored stored_value
  get_stored_lem key db a = end_memtable_lem key db (Source.get p key db.memtable) a refl

  -- what `get` is to return and to leave
  abbrev Reads : Key → Database p → Result (Option Bytes) × Database p → Type 0
  Reads key db (r, db') = (r ≡ stored_value key db.memtable db.compactor) × Left db db'

  end_ask_lem :
      (key : Key) (db : Database p) (r : Option Version × WriteThroughCache)
      → Agrees (some r.1) (λ j. stored_value j db.memtable db.compactor)
      → ((v : Version)
          → r.0 ≡ some v
          → stored_value key db.memtable db.compactor ≡ ok (visible v.value v.deleted))
      → Reads key db (continue (end_ask p r db) (answer p key))
  unfolding continue end_ask answer count_miss count_hit count_get
  end_ask_lem key db (none, c) a h =
      get_stored_lem key (count_miss p (record db { cache = some c })) a
  end_ask_lem key db (some v, c) a h = (sym (h v refl), (refl, refl, a))

  ask_lem :
      (key : Key) (db : Database p) (c : Option WriteThroughCache)
      → db.cache ≡ c
      → Agrees c (λ j. stored_value j db.memtable db.compactor)
      → Reads key db (continue (ask p key c db) (answer p key))
  unfolding continue ask answer
  ask_lem key db none e a =
      get_stored_lem key db
        (subst (λ x. Agrees x (λ j. stored_value j db.memtable db.compactor)) (sym e) a)
  ask_lem key db (some c) e (v, a) =
      let (found, same, _, _, valid) = CacheReads.get_lem key c v in
      end_ask_lem key db (Cache.get key c) (valid, λ j x h. a j x (sym (same j) ∙ h))
        (λ x h. a key x (sym found ∙ h))

  validate_key-ok :
      (key : Key) (db : Database p)
      → 0 < length key
      → length key ≤ 1024
      → validate_key p key db ≡ (ok tt, db)
  unfolding validate_key
  validate_key-ok key db h k =
      let a : (length key == 0) ≡ false = ground arith in
      let b : ltb 1024 (length key) ≡ false = ground arith in
      >>=-ok (raise_if (length key == 0) invalid_key_error) _ {s = db} {s' = db} (rw a refl)
      ∙ rw b refl

  pub get-run :
      (key : Key) (db : Database p)
      → db.closed ≡ false
      → 0 < length key
      → length key ≤ 1024
      → get p key db ≡ continue (ask p key db.cache db) (answer p key)
  unfolding get check_open ask_cache
  get-run key db open' h k =
      let s1 : check_open p db ≡ (ok tt, db) = rw open' refl in
      let s2 = validate_key-ok key db h k in
      >>=-ok (check_open p) _ s1
      ∙ (>>=-ok (validate_key p key) _ s2 ∙ >>=-eq-continue (ask_cache p key) (answer p key) db)

  Left-IsCoherent : (db db' : Database p) → IsCoherent db → Left db db' → IsCoherent db'
  Left-IsCoherent db db' c (m, t, a) = record {
    memtable = subst (SourceLaws.IsValid p) (sym m) c.memtable;
    cache = rw (m, t) a;
  }

  -- On an open, coherent database get of a key of 1 to 1024 code points returns what the memtable
  -- and the tables alone have for it, and leaves these as they are and the database coherent: the
  -- cache cannot be seen.
  pub get-eq-stored_value :
      (key : Key) (db : Database p)
      → IsCoherent db
      → db.closed ≡ false
      → 0 < length key
      → length key ≤ 1024
      → ((get p key db).0 ≡ stored_value key db.memtable db.compactor)
        × ((get p key db).1.memtable ≡ db.memtable)
        × ((get p key db).1.compactor ≡ db.compactor)
        × IsCoherent (get p key db).1
  get-eq-stored_value key db c open' h k =
      let r = ask_lem key db db.cache refl c.cache in
      let run = get-run key db open' h k in
      let db' = (get p key db).1 in
      let (value, left) = subst (Reads key db) (sym run) r in
      (value, left.0, left.1, Left-IsCoherent db db' c left)
