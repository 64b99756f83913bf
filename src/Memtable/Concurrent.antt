-- ===== src/Memtable/Concurrent.antt =====
-- `ConcurrentMemtables`: memtables chosen by `hash(key) % count`. Python's `hash` of a string is
-- the parameter `hash`.
use yellowdb.Prelude.{ℕ, suc, ◌+◌, Bool, Option, List, [], ◌∷◌, map, replicate, ◌==◌, if◌then◌else◌}
use yellowdb.Prelude.Int.{ℤ, mod_ℤ}
use yellowdb.Errors.{Result, ok, raise, zero_division_error, ◌>>=◌}
use yellowdb.Config.{Config}
use yellowdb.Text.{Key, Bytes}
use yellowdb.Dict.{Dict, insert}
use yellowdb.Items.{item, modify}
use yellowdb.Memtable.SortedDict.{SortedDict}
use yellowdb.Memtable.Table
use yellowdb.Memtable.Table.{MemtableEntry, Memtable}

-- d.update(e)
unfoldable pub update {ℓ} : {V : Type ℓ} → Dict V → Dict V → Dict V
update d [] = d
update d ((k, v) ∷ e) = update (insert k v d) e

module _ (sd : SortedDict MemtableEntry) (hash : Key → ℤ) where
  pub record ConcurrentMemtables : Type 0 where
    pub memtables : List (Memtable sd)
    pub count : ℕ

  unfoldable pub new : ℕ → ConcurrentMemtables
  new count = record { memtables = replicate count (Table.new sd); count = count }

  unfoldable pub get_memtable_index : ConcurrentMemtables → Key → Result ℕ
  get_memtable_index c key =
      if c.count == 0 then raise zero_division_error else ok (mod_ℤ (hash key) c.count)

  unfoldable pub put : Key → Bytes → ℕ → Bool → ConcurrentMemtables → Result ConcurrentMemtables
  put key value timestamp deleted c = do
    index ← get_memtable_index c key
    ms ← modify index (Table.put sd key value timestamp deleted) c.memtables
    ok (record c { memtables = ms })

  unfoldable pub get : Key → ConcurrentMemtables → Result (Option MemtableEntry)
  get key c = do
    index ← get_memtable_index c key
    m ← item index c.memtables
    ok (Table.get sd key m)

  unfoldable pub delete : Key → ℕ → ConcurrentMemtables → Result ConcurrentMemtables
  delete key timestamp c = do
    index ← get_memtable_index c key
    ms ← modify index (Table.delete sd key timestamp) c.memtables
    ok (record c { memtables = ms })

  unfoldable pub clear_memtable : ℕ → ConcurrentMemtables → Result ConcurrentMemtables
  clear_memtable index c = do
    ms ← modify index (λ m. ok (Table.clear sd m)) c.memtables
    ok (record c { memtables = ms })

  unfoldable pub clear_all : ConcurrentMemtables → ConcurrentMemtables
  clear_all c = record c { memtables = map (Table.clear sd) c.memtables }

  unfoldable pub gather : Dict MemtableEntry → List (Memtable sd) → Dict MemtableEntry
  gather result [] = result
  gather result (m ∷ ms) = gather (update result (Table.get_all sd m)) ms

  unfoldable pub get_all_entries : ConcurrentMemtables → Dict MemtableEntry
  get_all_entries c = gather [] c.memtables

  unfoldable pub sum_sizes : List (Memtable sd) → ℕ
  sum_sizes [] = 0
  sum_sizes (m ∷ ms) = Table.get_size sd m + sum_sizes ms

  unfoldable pub get_total_size : ConcurrentMemtables → ℕ
  unfolding sum_sizes
  get_total_size c = sum_sizes c.memtables

  -- `enumerate` from `i`
  unfoldable pub full_from : Config → ℕ → List (Memtable sd) → List (ℕ × Memtable sd)
  full_from config i [] = []
  full_from config i (m ∷ ms) =
      let rest = full_from config (suc i) ms in
      if Table.is_full sd config m then (i, m) ∷ rest else rest

  unfoldable pub get_full_memtables : Config → ConcurrentMemtables → List (ℕ × Memtable sd)
  unfolding full_from
  get_full_memtables config c = full_from config 0 c.memtables
