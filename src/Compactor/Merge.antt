-- ===== src/Compactor/Merge.antt =====
-- The dictionary `merged_entries` of `compact_levels`, and dictionaries in key order.
use yellowdb.Prelude.{Bool, Option, none, some, List, [], ◌∷◌, ◌++◌, true, ltb, if◌then◌else◌}
use yellowdb.Dict.{Dict, lookup, insert}
use yellowdb.Memtable.Sorted.{insert_sorted}
use yellowdb.Cache.Defs.{Version}
use yellowdb.Serializer.Defs.{Zlib}
use yellowdb.Wal.Recover.{Entry}
use yellowdb.SsTable.Defs.{SsTable, scan_all}

-- the tuple (value, timestamp, deleted)
abbrev pub version : Entry → Version
version e = record { value = e.value; timestamp = e.timestamp; deleted = e.deleted }

-- `key not in merged or merged[key][1] < timestamp`
unfoldable pub is_newer : Option Version → Entry → Bool
is_newer none e = true
is_newer (some v) e = ltb v.timestamp e.timestamp

-- the entries of a table of the source, one after the other
unfoldable pub merge_newer : List Entry → Dict Version → Dict Version
unfolding is_newer
merge_newer [] merged = merged
merge_newer (e ∷ es) merged =
    merge_newer es
      (if is_newer (lookup e.key merged) e then insert e.key (version e) merged else merged)

-- the entries of a table of the destination
unfoldable pub merge_absent : List Entry → Dict Version → Dict Version
merge_absent [] merged = merged
merge_absent (e ∷ es) merged =
    merge_absent es
      (elim (lookup e.key merged) [ none ↦ insert e.key (version e) merged | some _ ↦ merged ])

-- the entries of the tables of a level, in their order
unfoldable pub scan_tables : Zlib → List SsTable → List Entry
unfolding scan_all
scan_tables z [] = []
scan_tables z (t ∷ ts) = scan_all z t ++ scan_tables z ts

-- The pairs of a dictionary in the order of its keys, which are distinct.
unfoldable pub sorted_items {ℓ} : {V : Type ℓ} → Dict V → Dict V
unfolding insert_sorted
sorted_items [] = []
sorted_items ((k, v) ∷ d) = insert_sorted k v (sorted_items d)

unfoldable pub entries_of : Dict Version → List Entry
entries_of [] = []
entries_of ((k, v) ∷ d) =
    record { key = k; value = v.value; timestamp = v.timestamp; deleted = v.deleted } ∷ entries_of d
