-- ===== src/Examples/SessionScans.antt =====
-- examples/session_store.py: the methods of `SessionStore` that go through all sessions, and `close`.
use yellowdb.Prelude.{ℕ, some, List, [], ◌∷◌, length, map, if◌then◌else◌}
use yellowdb.Errors.{Result, ok, ◌>>=◌}
use yellowdb.Text.{Key, Bytes}
use yellowdb.Text.Literal.{codes}
use yellowdb.Actions as Actions
use yellowdb.Actions.{Action, pure, lift}
use yellowdb.Batch.{delete_operation}
use yellowdb.Database.State.{Clock}
use yellowdb.Examples.Environment.{Environment}
use yellowdb.Examples.Store.{Store}
use yellowdb.Examples.Prefix.{gather, with_prefix}
use yellowdb.Examples.Json.{field, read_object, read_time}
use yellowdb.Examples.SessionStore.{prefix, session_key, timed, is_expired}

module _ (e : Environment) (store : Store) (ttl_seconds : ℕ) where
  -- the rest of the body of the loop of `get_user_sessions`, with what it appends
  unfoldable pub user_round : Key → Bytes → Result (List e.Json)
  unfolding field read_object
  user_round user_id value = do
    session_data ← read_object e value
    owner ← field e (codes "user_id") session_data
    if e.same owner user_id
        then (do session_id ← field e (codes "session_id") session_data; ok (session_id ∷ []))
        else ok []

  -- the loop over the entries of `self.db.scan(start_key="session:")`
  unfoldable pub gather_sessions :
      {X : Type 0} → (Bytes → Result (List X)) → Action store.S (List X)
  unfolding gather
  gather_sessions round s =
      (do entries ← store.scan (some prefix) s; gather round prefix entries, s)

  unfoldable pub get_user_sessions : Key → Action store.S (List e.Json)
  unfolding gather_sessions user_round
  get_user_sessions user_id = gather_sessions (user_round user_id)

  unfoldable pub expired_round : ℕ → Bytes → Result (List e.Json)
  unfolding field read_object read_time is_expired
  expired_round current_time value = do
    session_data ← read_object e value
    last_accessed ← read_time e (codes "last_accessed") session_data
    if is_expired e store ttl_seconds current_time last_accessed
        then (do session_id ← field e (codes "session_id") session_data; ok (session_id ∷ []))
        else ok []

  -- the statements of `cleanup_expired_sessions` behind the loop
  unfoldable pub delete_expired : (ℕ → Clock) → List e.Json → Action store.S ℕ
  unfolding timed
  delete_expired clocks [] = pure 0
  delete_expired clocks (x ∷ xs) =
      Actions.◌>>◌
        (store.batch
          (timed clocks 0 (map (λ v. delete_operation (session_key (e.format v))) (x ∷ xs))))
        (pure (length (x ∷ xs)))

  unfoldable pub cleanup_expired_sessions : ℕ → (ℕ → Clock) → Action store.S ℕ
  unfolding gather_sessions expired_round delete_expired
  cleanup_expired_sessions current_time clocks =
      Actions.◌>>=◌ (gather_sessions (expired_round current_time)) (delete_expired clocks)

  pub record Report : Type 0 where
    pub total_sessions : ℕ
    pub memtable_size : ℕ
    pub cache_entries : ℕ

  -- `sum(1 for key, _ in … if key.startswith("session:"))`
  unfoldable pub count_sessions : List (Key × Bytes) → ℕ
  unfolding with_prefix
  count_sessions entries = length (with_prefix prefix entries)

  unfoldable pub get_stats : store.S → Result Report
  unfolding count_sessions
  get_stats s = do
    entries ← store.scan (some prefix) s
    ok (record {
      total_sessions = count_sessions entries;
      memtable_size = store.memtable_size s;
      cache_entries = store.cache_entries s;
    })

  unfoldable pub close : Action store.S (Unit {0})
  close = store.close
