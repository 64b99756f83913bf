-- ===== src/Examples/CacheReads.antt =====
-- `CacheLayer.get` right after `set`, and what every call of `get` counts.
use yellowdb.Prelude.{ℕ, ◌≡◌, false, Option}
use yellowdb.Errors.{ok}
use yellowdb.Text.{Key}
use yellowdb.Dict.{Dict}
use yellowdb.Examples.Environment.{Environment}
use yellowdb.Examples.Store.{Store}
use yellowdb.Examples.CacheLayer.{cache_key, meta_key, ttl_or, SetTimes, metadata, set}

module _ (e : Environment) (store : Store) (default_ttl : ℕ) where
  -- the metadata that `set` writes
  abbrev pub metadata_of : Key → e.Json → Option ℕ → SetTimes → Dict e.Json
  metadata_of key value ttl times =
      metadata e store default_ttl key times.created times.expiry_base (ttl_or ttl default_ttl)
        (e.dumps value)

  -- the store has room for the two writes of `set`
  pub record HasRoom (key : Key) (value : e.Json) (ttl : Option ℕ) (times : SetTimes) (s : store.S)
      : Type 0 where
    pub for_value : store.HasRoom (cache_key key) (e.dumps value) false times.first s
    pub for_metadata :
        (s1 : store.S)
        → store.set (cache_key key) (e.dumps value) times.first s ≡ (ok tt, s1)
        → store.HasRoom
            (meta_key key)
            (e.dumps (e.object (metadata_of key value ttl times)))
            false
            times.second
            s1
