-- ===== src/SsTable/Files.antt =====
-- The methods of `SSTable` that handle whole files, and `range_query`.
use yellowdb.Prelude.{ℕ, zero, suc, Option, none, some, List, [], ◌∷◌, length, drop, if◌then◌else◌}
use yellowdb.Errors.{ok, raise}
use yellowdb.Config.{Config}
use yellowdb.Text.{Key, Bytes}
use yellowdb.Text.Order.{key_lt}
use yellowdb.Serializer.Defs.{Zlib}
use yellowdb.Serializer.Read.{read_record_from_file}
use yellowdb.Bloom.Defs.{to_bytes}
use yellowdb.Wal.Recover.{Entry}
use yellowdb.Index.Defs
use yellowdb.Index.Defs.{in_use}
use yellowdb.Index.Files.{save, load}
use yellowdb.SsTable.Defs.{SsTable, new, bytes_of, scan_all}

unfoldable pub finalize : Config → SsTable → SsTable
unfolding in_use to_bytes save
finalize config t = record t {
  index_file = some (save t.index);
  bloom_file =
      if config.enable_bloom_filter
      then (elim (in_use t.index.bloom_filter) [ none ↦ t.bloom_file | some f ↦ some (to_bytes f) ])
      else t.bloom_file;
}

-- what is left of the table's files
unfoldable pub delete : SsTable → SsTable
delete t = record t { content = none; index_file = none; bloom_file = none }

unfoldable pub get_file_size : SsTable → ℕ
unfolding bytes_of
get_file_size t = length (bytes_of t.content)

unfoldable pub get_entry_count : SsTable → ℕ
get_entry_count t = t.entry_count

unfoldable pub get_minimum_key : SsTable → Option Key
get_minimum_key t = t.minimum_key

unfoldable pub get_maximum_key : SsTable → Option Key
get_maximum_key t = t.maximum_key

unfoldable pub get_key_range : SsTable → Option Key × Option Key
get_key_range t = (t.minimum_key, t.maximum_key)

unfoldable pub scan_all_list : Zlib → SsTable → List Entry
unfolding scan_all
scan_all_list z t = scan_all z t

unfoldable pub load_index : Config → SsTable → SsTable
unfolding load get_file_size
load_index config t = elim t.index_file [
  | none ↦ t
  | some data' ↦
      let index = load config (some data') t.index in
      record t { index = index; entry_count = length index.keys; file_size = get_file_size t }
]

-- `SSTable(path, level, is_new=False)` for the files of the table `t`
unfoldable pub reopen : Config → SsTable → SsTable
unfolding new load_index
reopen config t = load_index config (record (new config t.level t.sequence t.content) {
  index_file = t.index_file;
  bloom_file = t.bloom_file;
})

-- The loop of `range_query`. A record takes more than one byte, so the length of the file is fuel
-- enough.
unfoldable pub collect_range : Zlib → Key → Key → ℕ → Bytes → List Entry
collect_range z start_key end_key zero s = []
collect_range z start_key end_key (suc fuel) s = elim (read_record_from_file z s) [
  | raise e ↦ []
  | ok (d, rest) ↦
      let entry : Entry = record {
        key = d.key;
        value = d.value;
        timestamp = d.timestamp;
        deleted = d.deleted;
      } in
      let later = collect_range z start_key end_key fuel rest in
      if key_lt d.key start_key then later else if key_lt end_key d.key then [] else entry ∷ later
]

-- A file that does not exist, and every exception, gives the empty list.
unfoldable pub range_query : Zlib → Key → Key → SsTable → List Entry
unfolding collect_range
range_query z start_key end_key t = elim (Defs.get_key_range start_key end_key t.index) [
  | raise e ↦ []
  | ok (start_offset, _) ↦
      let s = drop start_offset (bytes_of t.content) in
      collect_range z start_key end_key (suc (length s)) s
]
