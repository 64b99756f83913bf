-- ===== src/Compactor/Defs.antt =====
-- `Compactor`. `levels` is the dictionary of the levels: `get_level` makes an empty level where
-- there is none, so it is a function with `[]` there. The key cache of the class `Serializer` goes
-- in and out of the methods that write tables.
use Prim.Native.String.{String}
use yellowdb.Prelude.{
  ℕ, zero, suc, ◌+◌, ◌-◌, ◌*◌, ◌^◌, Bool, true, false, Option, none, some, List, [], ◌∷◌, length,
  ltb, ◌==◌, if◌then◌else◌,
}
use yellowdb.Errors.{Result, ok, raise, compaction_error}
use yellowdb.Config.{Config, is_tiered}
use yellowdb.Text.{Key}
use yellowdb.Dict.{Dict}
use yellowdb.Cache.Defs.{Version}
use yellowdb.Serializer.KeyCache.{KeyCache}
use yellowdb.Wal.Recover.{Entry}
use yellowdb.SsTable.Defs
use yellowdb.SsTable.Defs.{SsTable, write_record}
use yellowdb.SsTable.Files.{finalize, range_query}
use yellowdb.Platform.{Platform}
use yellowdb.Compactor.Level.{add_sstable, remove_sstable, get_sstables_for_range, get_size}
use yellowdb.Compactor.Merge.{merge_newer, merge_absent, scan_tables, sorted_items, entries_of}

pub record Compactor : Type 0 where
  pub levels : ℕ → List SsTable
  pub next_sequence : ℕ

unfoldable pub new : Compactor
new = record { levels = λ n. []; next_sequence = 0 }

-- `self.levels[n]` holds the tables `ts`
unfoldable pub set_level : ℕ → List SsTable → Compactor → Compactor
set_level n ts c = record c { levels = λ m. if n == m then ts else c.levels m }

unfoldable pub add_sstable_at : SsTable → ℕ → Compactor → Compactor
unfolding add_sstable set_level
add_sstable_at t level c = set_level level (add_sstable t (c.levels level)) c

-- `maximum_level_size` of level `i`
unfoldable pub maximum_level_size : Config → ℕ → ℕ
maximum_level_size config i =
    config.sstable_size * (if is_tiered config then 4 ^ i else 2 ^ (i - 1))

unfoldable pub is_oversized : Config → Compactor → ℕ → Bool
unfolding maximum_level_size get_size
is_oversized config c i = ltb (maximum_level_size config i) (get_size (c.levels i))

-- the loop of `needs_compaction`, from level `i` for so many levels
unfoldable pub any_oversized : Config → Compactor → ℕ → ℕ → Bool
unfolding is_oversized
any_oversized config c i zero = false
any_oversized config c i (suc rest) =
    let later = any_oversized config c (suc i) rest in
    if is_oversized config c i then true else later

unfoldable pub needs_compaction : Config → Compactor → Bool
unfolding any_oversized
needs_compaction config c =
    if ltb 2 (length (c.levels 0))
    then true
    else any_oversized config c 1 (config.compaction_threshold - 1)

-- the loop of `select_compaction_range`
unfoldable pub select_from : Config → Compactor → ℕ → ℕ → Option (ℕ × ℕ)
unfolding is_oversized
select_from config c i zero = none
select_from config c zero (suc rest) =
    let later = select_from config c 1 rest in
    if ltb 2 (length (c.levels 0)) then some (0, 1) else later
select_from config c (suc i) (suc rest) =
    let later = select_from config c (suc (suc i)) rest in
    if is_oversized config c (suc i) then some (suc i, suc i + 1) else later

unfoldable pub select_compaction_range : Config → Compactor → Option (ℕ × ℕ)
unfolding select_from
select_compaction_range config c = select_from config c 0 (config.compaction_threshold - 1)

-- the loop `for sstable in source_sstables: source_level.remove_sstable(sstable)`
unfoldable pub remove_all : List SsTable → List SsTable → List SsTable
unfolding remove_sstable
remove_all [] level = level
remove_all (t ∷ ts) level = remove_all ts (remove_sstable t level)

pub record Stats : Type 0 where
  pub total_size : ℕ
  -- for each level its number, how many tables it has, and their size
  pub levels : List (ℕ × ℕ × ℕ)
  pub needs_compaction : Bool
  pub strategy : String

-- the loop of `get_stats`, from level `i` for so many levels
unfoldable pub level_stats : Compactor → ℕ → ℕ → List (ℕ × ℕ × ℕ)
unfolding get_size
level_stats c i zero = []
level_stats c i (suc rest) =
    (i, length (c.levels i), get_size (c.levels i)) ∷ level_stats c (suc i) rest

unfoldable pub sum_sizes : List (ℕ × ℕ × ℕ) → ℕ
sum_sizes [] = 0
sum_sizes ((i, count, size) ∷ ls) = size + sum_sizes ls

unfoldable pub get_stats : Config → Compactor → Stats
unfolding level_stats sum_sizes
get_stats config c =
    let stats = level_stats c 0 config.compaction_threshold in
    record {
      total_size = sum_sizes stats;
      levels = stats;
      needs_compaction = needs_compaction config c;
      strategy = config.compaction_strategy;
    }

module _ (p : Platform) where
  -- what follows a call of `write_record` that ended like this
  unfoldable pub then_write :
      Result (Unit {0}) × SsTable × KeyCache
      → (SsTable → KeyCache → Result (Unit {0}) × SsTable × KeyCache)
      → Result (Unit {0}) × SsTable × KeyCache
  then_write (raise x, t, keys) rest = (raise x, t, keys)
  then_write (ok _, t, keys) rest = rest t keys

  -- the loop that writes entries to a new table, until one of them raises
  unfoldable pub write_all :
      List Entry → SsTable → KeyCache → Result (Unit {0}) × SsTable × KeyCache
  unfolding write_record then_write
  write_all [] t keys = (ok tt, t, keys)
  write_all (e ∷ es) t keys =
      then_write (write_record p.z p.md5 p.config e.key e.value e.timestamp e.deleted true t keys)
        (write_all es)

  -- `merged_entries` after both loops
  unfoldable pub merge_levels : List SsTable → List SsTable → Dict Version
  unfolding merge_newer merge_absent scan_tables
  merge_levels sources destinations =
      merge_absent (scan_tables p.z destinations) (merge_newer (scan_tables p.z sources) [])

  -- the statements of `compact_levels` behind the loop that writes the table, whose end is the last
  -- argument
  unfoldable pub end_merge :
      ℕ
      → ℕ
      → List SsTable
      → Compactor
      → Result (Unit {0}) × SsTable × KeyCache
      → Result (Unit {0}) × Compactor × KeyCache
  unfolding remove_all set_level add_sstable_at finalize
  end_merge from_level to_level sources c (raise e, t, keys') = (raise compaction_error, c, keys')
  end_merge from_level to_level sources c (ok _, t, keys') = (
    ok tt,
    add_sstable_at (finalize p.config t) to_level
        (set_level from_level (remove_all sources (c.levels from_level)) c),
    keys',
  )

  -- `compact_levels` with the tables of its first level
  unfoldable pub compact_tables :
      ℕ → ℕ → List SsTable → Compactor → KeyCache → Result (Unit {0}) × Compactor × KeyCache
  unfolding write_all merge_levels sorted_items entries_of end_merge
  compact_tables from_level to_level [] c keys = (ok tt, c, keys)
  compact_tables from_level to_level (s ∷ sources) c keys =
      let merged = merge_levels (s ∷ sources) (c.levels to_level) in
      let sequence = c.next_sequence in
      let table = Defs.new p.config to_level sequence (p.old_file to_level sequence) in
      end_merge from_level to_level (s ∷ sources) (record c { next_sequence = sequence + 1 })
        (write_all (entries_of (sorted_items merged)) table keys)

  unfoldable pub compact_levels :
      ℕ → ℕ → Compactor → KeyCache → Result (Unit {0}) × Compactor × KeyCache
  unfolding compact_tables
  compact_levels from_level to_level c keys =
      compact_tables from_level to_level (c.levels from_level) c keys

  -- the first table of a level that has the key
  unfoldable pub search_tables : Key → List SsTable → Option Version
  unfolding Defs.get
  search_tables key [] = none
  search_tables key (t ∷ ts) =
      let later = search_tables key ts in
      elim (Defs.get p.z p.md5 p.config key t) [ some v ↦ some v | none ↦ later ]

  -- the loop of `search_key`, from level `n` for so many levels
  unfoldable pub search_levels : Key → Compactor → ℕ → ℕ → Option Version
  unfolding search_tables
  search_levels key c n zero = none
  search_levels key c n (suc rest) =
      let later = search_levels key c (suc n) rest in
      elim (search_tables key (c.levels n)) [ some v ↦ some v | none ↦ later ]

  unfoldable pub search_key : Key → Compactor → Option Version
  unfolding search_levels
  search_key key c = search_levels key c 0 p.config.compaction_threshold

  unfoldable pub range_tables : Key → Key → List SsTable → Dict Version → Dict Version
  unfolding range_query merge_absent
  range_tables start_key end_key [] results = results
  range_tables start_key end_key (t ∷ ts) results =
      range_tables start_key end_key ts (merge_absent (range_query p.z start_key end_key t) results)

  -- the loop of `range_search`
  unfoldable pub range_levels : Key → Key → Compactor → ℕ → ℕ → Dict Version → Dict Version
  unfolding range_tables get_sstables_for_range
  range_levels start_key end_key c n zero results = results
  range_levels start_key end_key c n (suc rest) results =
      range_levels start_key end_key c (suc n) rest (
        range_tables start_key end_key (get_sstables_for_range start_key end_key (c.levels n))
          results)

  unfoldable pub range_search : Key → Key → Compactor → Dict Version
  unfolding range_levels
  range_search start_key end_key c =
      range_levels start_key end_key c 0 p.config.compaction_threshold []
