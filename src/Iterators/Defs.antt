-- ===== src/Iterators/Defs.antt =====
-- `DatabaseIterator` and `RangeIterator`. They differ only in how the entries are loaded.
use yellowdb.Prelude.{
  ℕ, zero, suc, ◌+◌, Bool, true, ◌&&◌, Option, none, some, List, [], ◌∷◌, ◌++◌, map, length,
  if◌then◌else◌,
}
use yellowdb.Errors.{ok, raise, database_closed_error, Result}
use yellowdb.Text.{Key, Bytes}
use yellowdb.Text.Order.{key_le}
use yellowdb.Dict.{Dict, insert}
use yellowdb.Items.{item}
use yellowdb.Memtable.Table
use yellowdb.Memtable.Table.{MemtableEntry}
use yellowdb.Cache.Defs.{Version}
use yellowdb.Wal.Recover.{Entry}
use yellowdb.Compactor.Defs.{Compactor, range_search}
use yellowdb.Compactor.Merge.{
  version, merge_newer, merge_absent, scan_tables, sorted_items, entries_of,
}
use yellowdb.Platform.{Platform}
use yellowdb.Database.Source
use yellowdb.Database.Source.{Source, concurrent, single}
use yellowdb.Database.State.{Database}

pub record Cursor : Type 0 where
  pub entries : List (Key × Bytes)
  pub current_index : ℕ

-- `__iter__` and `reset`
unfoldable pub reset : Cursor → Cursor
reset c = record c { current_index = 0 }

-- `__next__` by what `self._entries[self._current_index]` gives; `none` is `StopIteration`
unfoldable pub end_next : Result (Key × Bytes) → Cursor → Option (Key × Bytes) × Cursor
end_next (raise e) c = (none, c)
end_next (ok e) c = (some e, record c { current_index = c.current_index + 1 })

unfoldable pub next : Cursor → Option (Key × Bytes) × Cursor
unfolding end_next
next c = end_next (item c.current_index c.entries) c

unfoldable pub count : Cursor → ℕ
count c = length c.entries

abbrev pub to_entry : Key × MemtableEntry → Entry
to_entry (key, e) = record {
  key = key;
  value = e.value;
  timestamp = e.timestamp;
  deleted = e.deleted;
}

-- the entries for which the test on the key holds
unfoldable pub where_key : (Key → Bool) → List Entry → List Entry
where_key test [] = []
where_key test (e ∷ es) = let rest = where_key test es in if test e.key then e ∷ rest else rest

-- `merged[key] = (value, timestamp, deleted)` for each entry
unfoldable pub assign_all : List Entry → Dict Version → Dict Version
assign_all [] merged = merged
assign_all (e ∷ es) merged = assign_all es (insert e.key (version e) merged)

-- `[(key, value) for key, (value, timestamp, deleted) in … if not deleted]`
unfoldable pub live : Dict Version → List (Key × Bytes)
live [] = []
live ((k, v) ∷ d) = let rest = live d in if v.deleted then rest else (k, v.value) ∷ rest

module _ (p : Platform) where
  -- the tables of the levels from `n` on, for so many levels
  unfoldable pub scan_levels : Compactor → ℕ → ℕ → List Entry
  unfolding scan_tables
  scan_levels c n zero = []
  scan_levels c n (suc rest) = scan_tables p.z (c.levels n) ++ scan_levels c (suc n) rest

  -- `start_key is None or key >= start_key`
  unfoldable pub from_start : Option Key → Key → Bool
  from_start none key = true
  from_start (some start_key) key = key_le start_key key

  -- `merged` of `DatabaseIterator._load_entries`
  unfoldable pub merged_entries : Source p → Compactor → Option Key → Dict Version
  unfolding where_key scan_levels from_start assign_all merge_newer
  merged_entries m c start_key =
      assign_all (where_key (from_start start_key) (map to_entry (Source.get_all p m)))
        (merge_newer (where_key (from_start start_key) (scan_levels c 0 10)) [])

  unfoldable pub scan_entries : Source p → Compactor → Option Key → List (Key × Bytes)
  unfolding merged_entries live sorted_items
  scan_entries m c start_key = live (sorted_items (merged_entries m c start_key))

  -- what `RangeIterator._load_entries` takes from the memtable
  unfoldable pub memtable_range : Source p → Key → Key → List Entry
  memtable_range (concurrent c) start_key end_key = map to_entry (Source.get_all p (concurrent c))
  memtable_range (single m) start_key end_key =
      map (λ e. to_entry (e.key, e)) (Table.range_query p.sd start_key end_key m)

  unfoldable pub entries_dict : Source p → Compactor → Key → Key → Dict Version
  unfolding memtable_range where_key merge_absent range_search
  entries_dict m c start_key end_key =
      merge_absent (entries_of (range_search p start_key end_key c)) (
        merge_absent
          (where_key (λ key. key_le start_key key && key_le key end_key)
            (memtable_range m start_key end_key))
          [])

  unfoldable pub range_entries : Source p → Compactor → Key → Key → List (Key × Bytes)
  unfolding entries_dict live sorted_items
  range_entries m c start_key end_key = live (sorted_items (entries_dict m c start_key end_key))

  -- `YellowDB.scan`
  unfoldable pub scan : Option Key → Database p → Result Cursor
  unfolding scan_entries
  scan start_key db =
      if db.closed
      then raise database_closed_error
      else ok
          (record { entries = scan_entries db.memtable db.compactor start_key; current_index = 0 })

  -- `YellowDB.range`
  unfoldable pub range : Key → Key → Database p → Result Cursor
  unfolding range_entries
  range start_key end_key db =
      if db.closed
      then raise database_closed_error
      else ok (record {
        entries = range_entries db.memtable db.compactor start_key end_key;
        current_index = 0;
      })
