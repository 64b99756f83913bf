-- ===== src/Database/Source.antt =====
-- `self.memtable`: one memtable, or several.
use yellowdb.Prelude.{ℕ, ◌+◌, Bool, Option, List, [], ◌∷◌, leb, if◌then◌else◌}
use yellowdb.Errors.{Result, ok, ◌>>=◌}
use yellowdb.Text.{Key, Bytes}
use yellowdb.Dict.{Dict}
use yellowdb.Memtable.Table
use yellowdb.Memtable.Table.{MemtableEntry, Memtable}
use yellowdb.Memtable.Concurrent
use yellowdb.Memtable.Concurrent.{ConcurrentMemtables}
use yellowdb.Platform.{Platform}

module _ (p : Platform) where
  pub data Source : Type 0 where
    concurrent : ConcurrentMemtables p.sd p.hash → Source
    single : Memtable p.sd → Source

  unfoldable pub fresh : Source
  unfolding Concurrent.new Table.new
  fresh =
      if p.config.enable_concurrent_memtables
      then concurrent (Concurrent.new p.sd p.hash p.config.concurrent_memtable_count)
      else single (Table.new p.sd)

  unfoldable pub put : Key → Bytes → ℕ → Bool → Source → Result Source
  put key value timestamp deleted (concurrent c) =
      Concurrent.put p.sd p.hash key value timestamp deleted c >>= λ c'. ok (concurrent c')
  put key value timestamp deleted (single m) =
      Table.put p.sd key value timestamp deleted m >>= λ m'. ok (single m')

  unfoldable pub delete : Key → ℕ → Source → Result Source
  delete key timestamp (concurrent c) =
      Concurrent.delete p.sd p.hash key timestamp c >>= λ c'. ok (concurrent c')
  delete key timestamp (single m) = Table.delete p.sd key timestamp m >>= λ m'. ok (single m')

  unfoldable pub get : Key → Source → Result (Option MemtableEntry)
  get key (concurrent c) = Concurrent.get p.sd p.hash key c
  get key (single m) = ok (Table.get p.sd key m)

  -- the test before `_flush_memtables` and `_flush_memtable` in `set` and `delete`
  unfoldable pub is_full : Source → Bool
  is_full (concurrent c) = leb p.config.memtable_size (Concurrent.get_total_size p.sd p.hash c)
  is_full (single m) = Table.is_full p.sd p.config m

  -- `get_all_entries()` of several memtables, `get_all()` of one
  unfoldable pub get_all : Source → Dict MemtableEntry
  get_all (concurrent c) = Concurrent.get_all_entries p.sd p.hash c
  get_all (single m) = Table.get_all p.sd m

  unfoldable pub size : Source → ℕ
  size (concurrent c) = Concurrent.get_total_size p.sd p.hash c
  size (single m) = Table.get_size p.sd m

  sum_counts : List (Memtable p.sd) → ℕ
  sum_counts [] = 0
  sum_counts (m ∷ ms) = Table.get_count p.sd m + sum_counts ms

  unfoldable pub count : Source → ℕ
  unfolding sum_counts
  count (concurrent c) = sum_counts c.memtables
  count (single m) = Table.get_count p.sd m
