-- ===== src/Database/State.antt =====
-- The attributes of `YellowDB`, and the readings of the clock that a method makes. Time is in
-- microseconds. The key cache of the class `Serializer` is in `wal.keys`. `_lock` and
-- `_compaction_lock` are not modelled: a method is one step, and no other method runs in it.
use yellowdb.Prelude.{ℕ, ◌+◌, ◌*◌, Bool, Option, length, ltb, ◌==◌}
use yellowdb.Errors.{ok, database_closed_error, invalid_key_error, invalid_value_error}
use yellowdb.Text.{Key, Bytes}
use yellowdb.Actions.{Action, raise_if, ◌>>◌}
use yellowdb.Cache.Defs.{WriteThroughCache}
use yellowdb.Wal.Defs.{Wal}
use yellowdb.Compactor.Defs.{Compactor}
use yellowdb.Platform.{Platform}
use yellowdb.Database.Source.{Source}

pub record Stats : Type 0 where
  pub get_count : ℕ
  pub set_count : ℕ
  pub delete_count : ℕ
  pub compactions : ℕ
  pub flushes : ℕ
  pub cache_hits : ℕ
  pub cache_misses : ℕ

-- what `time.time()` returns: in `_get_timestamp`, in the test before `_check_compaction`, and in
-- the assignment behind that test
pub record Clock : Type 0 where
  pub stamp : ℕ
  pub check : ℕ
  pub reset : ℕ

module _ (p : Platform) where
  pub record Database : Type 0 where
    pub closed : Bool
    pub memtable : Source p
    pub wal : Wal
    pub compactor : Compactor
    pub cache : Option WriteThroughCache
    pub sequence_number : ℕ
    pub timestamp_counter : ℕ
    pub last_compaction_check : ℕ
    pub stats : Stats

  unfoldable pub check_open : Action Database (Unit {0})
  check_open db = raise_if db.closed database_closed_error db

  -- Keys are strings. The length is that of the string, in code points.
  unfoldable pub validate_key : Key → Action Database (Unit {0})
  validate_key key = do
    raise_if (length key == 0) invalid_key_error
    raise_if (ltb 1024 (length key)) invalid_key_error

  unfoldable pub validate_value : Bytes → Action Database (Unit {0})
  validate_value value = raise_if (ltb (512 * 1024 * 1024) (length value)) invalid_value_error

  unfoldable pub get_timestamp : Clock → Action Database ℕ
  get_timestamp clock db =
      let counter = db.timestamp_counter + 1 in
      (ok (clock.stamp + counter), record db { timestamp_counter = counter })
