-- ===== src/Examples/CacheScans.antt =====
-- examples/cache_layer.py: the methods of `CacheLayer` that handle many entries, and `close`.
use yellowdb.Prelude.{
  ℕ, ◌+◌, Option, none, some, List, [], ◌∷◌, ◌++◌, length, ltb, ◌==◌, if◌then◌else◌,
}
use yellowdb.Errors.{Result, ok, ◌>>=◌}
use yellowdb.Text.{Bytes}
use yellowdb.Text.Literal.{codes}
use yellowdb.Dict.{Dict, lookup}
use yellowdb.Actions as Actions
use yellowdb.Actions.{Action, pure, modify}
use yellowdb.Batch.{Operation, put_operation, delete_operation}
use yellowdb.Database.State.{Clock}
use yellowdb.Examples.Environment.{Environment}
use yellowdb.Examples.Store.{Store}
use yellowdb.Examples.Prefix.{gather}
use yellowdb.Examples.Json.{field, read_object, read_time}
use yellowdb.Examples.SessionStore.{timed}
use yellowdb.Examples.CacheLayer.{
  cache_key, meta_key, cache_prefix, metadata_prefix, ttl_or, CacheLayer, on_db, metadata,
}

module _ (e : Environment) (store : Store) (default_ttl : ℕ) where
  -- the loop over the entries of `self.db.scan(start_key=self.metadata_prefix)`
  unfoldable pub gather_metadata :
      {X : Type 0} → (Bytes → Result (List X)) → store.S → Result (List X)
  unfolding gather
  gather_metadata round s = do
    entries ← store.scan (some metadata_prefix) s
    gather round metadata_prefix entries

  -- the rest of the body of the loop of `clear_expired`, with what it appends
  unfoldable pub expired_round : ℕ → Bytes → Result (List e.Json)
  unfolding field read_object read_time
  expired_round current_time value = do
    meta ← read_object e value
    expires_at ← read_time e (codes "expires_at") meta
    if ltb expires_at current_time
        then (do original_key ← field e (codes "key") meta; ok (original_key ∷ []))
        else ok []

  -- the loop in the `with` block of `clear_expired`
  unfoldable pub deletions : List e.Json → List Operation
  deletions [] = []
  deletions (original_key ∷ keys) =
      delete_operation (cache_prefix ++ e.format original_key)
      ∷ delete_operation (metadata_prefix ++ e.format original_key)
      ∷ deletions keys

  -- the statements behind the loop of `clear_expired`
  unfoldable pub delete_expired :
      (ℕ → Clock) → List e.Json → Action (CacheLayer e store default_ttl) ℕ
  unfolding on_db timed deletions
  delete_expired clocks [] = pure 0
  delete_expired clocks (x ∷ xs) =
      Actions.◌>>◌ (on_db e store default_ttl (store.batch (timed clocks 0 (deletions (x ∷ xs))))) (
        Actions.◌>>◌ (modify (λ c. record c { evictions = c.evictions + length (x ∷ xs) }))
          (pure (length (x ∷ xs))))

  unfoldable pub clear_expired : ℕ → (ℕ → Clock) → Action (CacheLayer e store default_ttl) ℕ
  unfolding gather_metadata expired_round delete_expired
  clear_expired current_time clocks =
      Actions.◌>>=◌ (λ c. (gather_metadata (expired_round current_time) c.db, c))
        (delete_expired clocks)

  -- the loop in the `with` block of `warm_cache`
  unfoldable pub insertions : ℕ → ℕ → Dict e.Json → List Operation
  unfolding metadata
  insertions current_time ttl [] = []
  insertions current_time ttl ((key, value) ∷ d) =
      put_operation (cache_key key) (e.dumps value)
      ∷ put_operation (meta_key key) (
          e.dumps (
            e.object
              (metadata e store default_ttl key current_time current_time ttl (e.dumps value))))
      ∷ insertions current_time ttl d

  unfoldable pub warm_cache :
      Dict e.Json → Option ℕ → ℕ → (ℕ → Clock) → Action (CacheLayer e store default_ttl) ℕ
  unfolding on_db timed insertions ttl_or
  warm_cache data_dict ttl current_time clocks =
      Actions.◌>>◌
        (on_db e store default_ttl (
          store.batch
            (timed clocks 0 (insertions current_time (ttl_or ttl default_ttl) data_dict))))
        (Actions.◌>>◌ (modify (λ c. record c { writes = c.writes + length data_dict }))
          (pure (length data_dict)))

  -- `metadata.get("size_bytes", 0)` as a number
  unfoldable pub size_of : Option e.Json → Result ℕ
  size_of none = ok 0
  size_of (some v) = e.as_integer v

  -- the rest of the body of the loop of `get_stats`: the size that it adds
  unfoldable pub size_round : Bytes → Result (List ℕ)
  unfolding read_object size_of
  size_round value = do
    meta ← read_object e value
    size ← size_of (lookup (codes "size_bytes") meta)
    ok (size ∷ [])

  unfoldable pub sum : List ℕ → ℕ
  sum [] = 0
  sum (n ∷ ns) = n + sum ns

  -- `hit_rate_percent` is none for the number 0 of a cache without requests, and otherwise the two
  -- numbers whose quotient, times 100, the code computes in floating point.
  pub record Report : Type 0 where
    pub cache_hits : ℕ
    pub cache_misses : ℕ
    pub hit_rate_percent : Option (ℕ × ℕ)
    pub total_writes : ℕ
    pub total_evictions : ℕ
    pub current_entries : ℕ
    pub total_cached_size : ℕ
    pub memtable_size : ℕ

  unfoldable pub get_stats : CacheLayer e store default_ttl → Result Report
  unfolding gather_metadata size_round sum
  get_stats c = do
    sizes ← gather_metadata size_round c.db
    ok (record {
      cache_hits = c.hits;
      cache_misses = c.misses;
      hit_rate_percent = if c.hits + c.misses == 0 then none else some (c.hits, c.hits + c.misses);
      total_writes = c.writes;
      total_evictions = c.evictions;
      current_entries = length sizes;
      total_cached_size = sum sizes;
      memtable_size = store.memtable_size c.db;
    })

  unfoldable pub close : Action (CacheLayer e store default_ttl) (Unit {0})
  unfolding on_db
  close = on_db e store default_ttl store.close
