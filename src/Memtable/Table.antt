-- ===== src/Memtable/Table.antt =====
-- `MemtableEntry` and `Memtable`. The locks are not modelled: a method is one step. A method that
-- raises has changed nothing, so its result is the new object or the exception. `_created_at` and
-- `get_age` are left out: nothing else reads them.
use yellowdb.Prelude.{
  ℕ, ◌+◌, ◌-◌, Bool, true, false, Option, none, some, List, [], ◌∷◌, leb, length,
}
use yellowdb.Errors.{Result, ok, ◌>>=◌}
use yellowdb.Config.{Config}
use yellowdb.Text.{Key, Bytes}
use yellowdb.Dict.{Dict}
use yellowdb.Serializer.KeyCache.{encode_key}
use yellowdb.Memtable.SortedDict.{SortedDict}

pub record MemtableEntry : Type 0 where
  pub key : Key
  pub value : Bytes
  pub timestamp : ℕ
  pub deleted : Bool

-- `MemtableEntry(key, value, timestamp, deleted)`
abbrev pub entry : Key → Bytes → ℕ → Bool → MemtableEntry
entry key value timestamp deleted = record {
  key = key;
  value = value;
  timestamp = timestamp;
  deleted = deleted;
}

-- len(key.encode("utf-8")) + len(value)
unfoldable pub entry_bytes : Key → Bytes → Result ℕ
entry_bytes key value = do key_bytes ← encode_key key; ok (length key_bytes + length value)

-- `old_size`, from `self._data[key]` if the key is there
unfoldable pub old_bytes : Option MemtableEntry → Result ℕ
old_bytes none = ok 0
old_bytes (some e) = entry_bytes e.key e.value

module _ (sd : SortedDict MemtableEntry) where
  pub record Memtable : Type 0 where
    pub entries : sd.D
    pub size : ℕ
    pub entry_count : ℕ

  unfoldable pub new : Memtable
  new = record { entries = sd.empty; size = 0; entry_count = 0 }

  -- `_size += new_size - old_size`: by the invariant of `Laws` the old size is part of `_size`, so
  -- the sum that is subtracted from is never below it.
  unfoldable pub put : Key → Bytes → ℕ → Bool → Memtable → Result Memtable
  put key value timestamp deleted m = do
    old_size ← old_bytes (sd.get m.entries key)
    new_size ← entry_bytes key value
    ok (record {
      entries = sd.assign m.entries key (entry key value timestamp deleted);
      size = m.size + new_size - old_size;
      entry_count = m.entry_count + 1;
    })

  unfoldable pub get : Key → Memtable → Option MemtableEntry
  get key m = sd.get m.entries key

  unfoldable pub delete : Key → ℕ → Memtable → Result Memtable
  unfolding put
  delete key timestamp m = put key [] timestamp true m

  unfoldable pub clear : Memtable → Memtable
  clear m = record { entries = sd.empty; size = 0; entry_count = 0 }

  -- the dictionary that `dict(self._data)` makes: its pairs are in the order of the keys
  unfoldable pub get_all : Memtable → Dict MemtableEntry
  get_all m = sd.items m.entries

  unfoldable pub get_sorted_entries : Memtable → List (Key × MemtableEntry)
  get_sorted_entries m = sd.items m.entries

  unfoldable pub get_size : Memtable → ℕ
  get_size m = m.size

  unfoldable pub get_count : Memtable → ℕ
  get_count m = sd.len m.entries

  -- `len(memtable)`
  unfoldable pub len : Memtable → ℕ
  len m = sd.len m.entries

  unfoldable pub is_full : Config → Memtable → Bool
  is_full config m = leb config.memtable_size m.size

  -- the loop of `range_query`; a `KeyError` ends it, and is swallowed
  unfoldable pub collect : List Key → Memtable → List MemtableEntry
  collect [] m = []
  collect (key ∷ keys) m = elim (sd.get m.entries key) [ none ↦ [] | some e ↦ e ∷ collect keys m ]

  unfoldable pub range_query : Key → Key → Memtable → List MemtableEntry
  unfolding collect
  range_query start_key end_key m = collect (sd.irange m.entries start_key end_key) m

  -- `key in memtable`
  unfoldable pub has_key : Key → Memtable → Bool
  has_key key m = elim (sd.get m.entries key) [ none ↦ false | some _ ↦ true ]
