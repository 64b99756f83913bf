-- ===== src/Examples/CacheLayer.antt =====
-- examples/cache_layer.py: `CacheLayer` with `get`, `set` and `delete`. A method takes what
-- `datetime.now` returns to it, and the readings of the clock that its calls of the database make.
use yellowdb.Prelude.{
  ℕ, zero, suc, ◌+◌, ◌*◌, Option, none, some, [], ◌∷◌, ◌++◌, length, ltb, if◌then◌else◌,
}
use yellowdb.Errors.{Result}
use yellowdb.Text.{Key, Bytes}
use yellowdb.Text.Literal.{codes}
use yellowdb.Dict.{Dict}
use yellowdb.Actions.{Action, pure, lift, modify, ◌>>=◌, ◌>>◌}
use yellowdb.Batch.{put_operation, delete_operation}
use yellowdb.Database.State.{Clock}
use yellowdb.Examples.Environment.{Environment}
use yellowdb.Examples.Store.{Store}
use yellowdb.Examples.Json.{read_object, read_time}

abbrev pub cache_prefix : Key
cache_prefix = codes "cache:"

abbrev pub metadata_prefix : Key
metadata_prefix = codes "meta:"

-- f"{self.cache_prefix}{key}"
abbrev pub cache_key : Key → Key
cache_key key = cache_prefix ++ key

-- f"{self.metadata_prefix}{key}"
abbrev pub meta_key : Key → Key
meta_key key = metadata_prefix ++ key

-- `ttl or self.default_ttl`
unfoldable pub ttl_or : Option ℕ → ℕ → ℕ
ttl_or none default_ttl = default_ttl
ttl_or (some zero) default_ttl = default_ttl
ttl_or (some (suc n)) default_ttl = suc n

-- what the clocks say in `set`: the two calls of `datetime.now`, and the two writes of the batch
pub record SetTimes : Type 0 where
  pub created : ℕ
  pub expiry_base : ℕ
  pub first : Clock
  pub second : Clock

module _ (e : Environment) (store : Store) (default_ttl : ℕ) where
  pub record CacheLayer : Type 0 where
    pub db : store.S
    pub hits : ℕ
    pub misses : ℕ
    pub writes : ℕ
    pub evictions : ℕ

  -- `CacheLayer(db_path)`, with the database that `YellowDB(data_directory=db_path)` gives
  unfoldable pub new : store.S → CacheLayer
  new db = record { db = db; hits = 0; misses = 0; writes = 0; evictions = 0 }

  -- a call of the database
  unfoldable pub on_db : {A : Type 0} → Action store.S A → Action CacheLayer A
  on_db m c = let (r, s) = m c.db in (r, record c { db = s })

  -- `expires_at` is the time to live after `base`.
  unfoldable pub metadata : Key → ℕ → ℕ → ℕ → Bytes → Dict e.Json
  metadata key created base ttl value_bytes =
      (codes "key", e.string key)
      ∷ (codes "created_at", e.string (e.isoformat created))
      ∷ (codes "expires_at", e.string (e.isoformat (base + ttl * 1000000)))
      ∷ (codes "ttl", e.integer ttl)
      ∷ (codes "size_bytes", e.integer (length value_bytes))
      ∷ []

  unfoldable pub set : Key → e.Json → Option ℕ → SetTimes → Action CacheLayer (Unit {0})
  unfolding on_db metadata ttl_or
  set key value ttl times =
      let value_bytes = e.dumps value in
      let meta =
        metadata key times.created times.expiry_base (ttl_or ttl default_ttl) value_bytes in
      do
        on_db (
            store.batch (
              (put_operation (cache_key key) value_bytes, times.first)
              ∷ (put_operation (meta_key key) (e.dumps (e.object meta)), times.second)
              ∷ []))
        modify (λ c. record c { writes = c.writes + 1 })

  unfoldable pub delete : Key → Clock → Clock → Action CacheLayer (Unit {0})
  unfolding on_db
  delete key first second = do
    on_db (
        store.batch (
          (delete_operation (cache_key key), first)
          ∷ (delete_operation (meta_key key), second)
          ∷ []))
    modify (λ c. record c { evictions = c.evictions + 1 })

  unfoldable pub count_hit : CacheLayer → CacheLayer
  count_hit c = record c { hits = c.hits + 1 }

  unfoldable pub count_miss : CacheLayer → CacheLayer
  count_miss c = record c { misses = c.misses + 1 }

  -- the two deletions of `get`, behind which nothing was found
  unfoldable pub drop_stale : Key → Clock → Clock → Action CacheLayer (Option e.Json)
  unfolding on_db
  drop_stale key first second = do
    on_db (store.delete (cache_key key) first)
    on_db (store.delete (meta_key key) second)
    pure none

  -- the test on the time, with `expires_at`
  unfoldable pub check_time :
      Key → ℕ → Clock → Clock → Bytes → ℕ → Action CacheLayer (Option e.Json)
  unfolding count_hit drop_stale
  check_time key now first second cached_bytes expires_at =
      if ltb now expires_at
      then modify count_hit >> (lift (e.loads cached_bytes) >>= λ v. pure (some v))
      else drop_stale key first second

  -- the statements behind `meta_bytes = self.db.get(meta_key)`
  unfoldable pub end_meta :
      Key → ℕ → Clock → Clock → Bytes → Option Bytes → Action CacheLayer (Option e.Json)
  unfolding check_time drop_stale read_object read_time
  end_meta key now first second cached_bytes none = drop_stale key first second
  end_meta key now first second cached_bytes (some []) = drop_stale key first second
  end_meta key now first second cached_bytes (some (b ∷ bs)) = do
    meta ← lift (read_object e (b ∷ bs))
    expires_at ← lift (read_time e (codes "expires_at") meta)
    check_time key now first second cached_bytes expires_at

  -- the statements behind `cached_bytes = self.db.get(cache_key)`
  unfoldable pub end_cached :
      Key → ℕ → Clock → Clock → Option Bytes → Action CacheLayer (Option e.Json)
  unfolding on_db end_meta
  end_cached key now first second none = pure none
  end_cached key now first second (some []) = pure none
  end_cached key now first second (some (b ∷ bs)) = do
    meta_bytes ← on_db (store.get (meta_key key))
    end_meta key now first second (b ∷ bs) meta_bytes

  -- the statements from the counting of a miss on; `loader` is what `loader_fn()` returns or raises,
  -- if there is one
  unfoldable pub load :
      Key → Option (Result e.Json) → Option ℕ → SetTimes → Action CacheLayer (Option e.Json)
  unfolding set count_miss
  load key none ttl times = modify count_miss >> pure none
  load key (some loader) ttl times = do
    modify count_miss
    value ← lift loader
    set key value ttl times
    pure (some value)

  -- `return` where a value was found
  unfoldable pub end_get :
      Key
      → Option (Result e.Json)
      → Option ℕ
      → SetTimes
      → Option e.Json
      → Action CacheLayer (Option e.Json)
  unfolding load
  end_get key loader ttl times none = load key loader ttl times
  end_get key loader ttl times (some value) = pure (some value)

  unfoldable pub get :
      Key
      → Option (Result e.Json)
      → Option ℕ
      → ℕ
      → Clock
      → Clock
      → SetTimes
      → Action CacheLayer (Option e.Json)
  unfolding on_db end_cached end_get
  get key loader ttl now first second times = do
    cached_bytes ← on_db (store.get (cache_key key))
    found ← end_cached key now first second cached_bytes
    end_get key loader ttl times found
