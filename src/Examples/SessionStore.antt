-- ===== src/Examples/SessionStore.antt =====
-- examples/session_store.py: the methods of `SessionStore`. The attribute `db` is the state,
-- `ttl_seconds` does not change. A method takes what `secrets.token_urlsafe` and `datetime.now`
-- return to it, and the readings of the clock that its calls of the database make.
use yellowdb.Prelude.{
  ℕ, suc, ◌+◌, ◌*◌, Bool, true, false, Option, none, some, List, [], ◌∷◌, ◌++◌, ltb, if◌then◌else◌,
}
use yellowdb.Text.{Key, Bytes}
use yellowdb.Text.Literal.{codes}
use yellowdb.Dict.{Dict, insert}
use yellowdb.Actions.{Action, pure, lift, ◌>>=◌, ◌>>◌}
use yellowdb.Batch.{Operation}
use yellowdb.Database.State.{Clock}
use yellowdb.Examples.Environment.{Environment}
use yellowdb.Examples.Store.{Store}
use yellowdb.Examples.Json.{merge_field, read_object, read_time}

abbrev pub prefix : Key
prefix = codes "session:"

-- f"session:{session_id}"
abbrev pub session_key : Key → Key
session_key session_id = prefix ++ session_id

-- the operations of a batch, each with its readings of the clock
unfoldable pub timed : (ℕ → Clock) → ℕ → List Operation → List (Operation × Clock)
timed clocks n [] = []
timed clocks n (o ∷ os) = (o, clocks n) ∷ timed clocks (suc n) os

module _ (e : Environment) (store : Store) (ttl_seconds : ℕ) where
  abbrev pub or_empty : Option (Dict e.Json) → Dict e.Json
  or_empty none = []
  or_empty (some d) = d

  unfoldable pub new_session : Key → Key → ℕ → ℕ → Option (Dict e.Json) → Dict e.Json
  new_session session_id user_id created accessed data' =
      (codes "session_id", e.string session_id)
      ∷ (codes "user_id", e.string user_id)
      ∷ (codes "created_at", e.string (e.isoformat created))
      ∷ (codes "last_accessed", e.string (e.isoformat accessed))
      ∷ (codes "data", e.object (or_empty data'))
      ∷ []

  unfoldable pub create_session :
      Key → Option (Dict e.Json) → Key → ℕ → ℕ → Clock → Action store.S Key
  unfolding new_session
  create_session user_id data' session_id created accessed clock = do
    store.set (session_key session_id)
        (e.dumps (e.object (new_session session_id user_id created accessed data'))) clock
    pure session_id

  unfoldable pub delete_session : Key → Clock → Action store.S (Unit {0})
  delete_session session_id clock = store.delete (session_key session_id) clock

  -- `now - last_accessed > timedelta(seconds=ttl_seconds)`
  unfoldable pub is_expired : ℕ → ℕ → Bool
  is_expired now last_accessed = ltb (last_accessed + ttl_seconds * 1000000) now

  abbrev pub touched : ℕ → Dict e.Json → Dict e.Json
  touched now session_data =
      insert (codes "last_accessed") (e.string (e.isoformat now)) session_data

  -- the statements of `get_session` behind the test on the time
  unfoldable pub refresh : Key → ℕ → Clock → Dict e.Json → Action store.S (Option (Dict e.Json))
  refresh session_id refreshed clock session_data = do
    store.set (session_key session_id) (e.dumps (e.object (touched refreshed session_data))) clock
    pure (some (touched refreshed session_data))

  -- the statements from the test on the time, with `last_accessed`
  unfoldable pub check_time :
      Key → ℕ → ℕ → Clock → Dict e.Json → ℕ → Action store.S (Option (Dict e.Json))
  unfolding delete_session is_expired refresh
  check_time session_id now refreshed clock session_data last_accessed =
      if is_expired now last_accessed
      then delete_session session_id clock >> pure none
      else refresh session_id refreshed clock session_data

  -- the statements behind `session_bytes = self.db.get(key)`
  unfoldable pub end_get :
      Key → ℕ → ℕ → Clock → Option Bytes → Action store.S (Option (Dict e.Json))
  unfolding read_object read_time check_time
  end_get session_id now refreshed clock none = pure none
  end_get session_id now refreshed clock (some []) = pure none
  end_get session_id now refreshed clock (some (b ∷ bs)) = do
    session_data ← lift (read_object e (b ∷ bs))
    last_accessed ← lift (read_time e (codes "last_accessed") session_data)
    check_time session_id now refreshed clock session_data last_accessed

  unfoldable pub get_session : Key → ℕ → ℕ → Clock → Action store.S (Option (Dict e.Json))
  unfolding end_get
  get_session session_id now refreshed clock = do
    session_bytes ← store.get (session_key session_id)
    end_get session_id now refreshed clock session_bytes

  -- the statements behind `session_data = self.get_session(session_id)`
  unfoldable pub end_update :
      Key → Dict e.Json → ℕ → Clock → Option (Dict e.Json) → Action store.S Bool
  unfolding merge_field
  end_update session_id data' accessed clock none = pure false
  end_update session_id data' accessed clock (some []) = pure false
  end_update session_id data' accessed clock (some (x ∷ xs)) = do
    session_data ← lift (merge_field e (codes "data") data' (x ∷ xs))
    store.set (session_key session_id) (e.dumps (e.object (touched accessed session_data))) clock
    pure true

  -- `now`, `refreshed` and `clock` are those of the call of `get_session`.
  unfoldable pub update_session :
      Key → Dict e.Json → ℕ → ℕ → Clock → ℕ → Clock → Action store.S Bool
  unfolding get_session end_update
  update_session session_id data' now refreshed clock accessed clock' = do
    session_data ← get_session session_id now refreshed clock
    end_update session_id data' accessed clock' session_data
