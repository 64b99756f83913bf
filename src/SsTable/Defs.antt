-- ===== src/SsTable/Defs.antt =====
-- `SSTable`. `level` and `sequence` make the file's name, `content` is the file, `none` before it
-- exists, and `index_file` and `bloom_file` are the two files that `finalize` writes. A method that
-- raises midway has changed the table, and the key cache of the class `Serializer`, before; both
-- are returned.
use yellowdb.Prelude.{
  ℕ, zero, suc, ◌+◌, ◌/◌, ◌%◌, max, Bool, true, false, Option, none, some, List, [], ◌++◌, length,
  drop, ◌==◌, if◌then◌else◌,
}
use yellowdb.Errors.{Result, ok, raise, database_corrupted_error}
use yellowdb.Config.{Config}
use yellowdb.Text.{Key, Bytes}
use yellowdb.Text.Order.{key_eq, key_lt}
use yellowdb.Serializer.Defs.{Zlib}
use yellowdb.Serializer.KeyCache.{KeyCache, encode_key}
use yellowdb.Serializer.Write.{serialize_record}
use yellowdb.Serializer.Read.{read_record_from_file}
use yellowdb.Wal.Recover.{Entry, read_all}
use yellowdb.Cache.Defs.{Version}
use yellowdb.Index.Files.{SavedIndex}
use yellowdb.Index.Defs
use yellowdb.Index.Defs.{SparseIndex, add_key, might_contain, get_offset}

pub record SsTable : Type 0 where
  pub level : ℕ
  pub sequence : ℕ
  pub content : Option Bytes
  pub index_file : Option SavedIndex
  pub bloom_file : Option Bytes
  pub index : SparseIndex
  pub entry_count : ℕ
  pub file_size : ℕ
  pub minimum_key : Option Key
  pub maximum_key : Option Key

-- `SSTable(data_directory / create_filename(sequence, level), level, is_new=True)`, where
-- `content` is what a file of that name holds already
unfoldable pub new : Config → ℕ → ℕ → Option Bytes → SsTable
new config level sequence content = record {
  level = level;
  sequence = sequence;
  content = content;
  index_file = none;
  bloom_file = none;
  index = Defs.new config;
  entry_count = 0;
  file_size = 0;
  minimum_key = none;
  maximum_key = none;
}

unfoldable pub bytes_of : Option Bytes → Bytes
bytes_of none = []
bytes_of (some bs) = bs

unfoldable pub least : Key → Option Key → Key
least key none = key
least key (some m) = if key_lt key m then key else m

unfoldable pub greatest : Key → Option Key → Key
greatest key none = key
greatest key (some m) = if key_lt m key then key else m

-- len(key.encode("utf-8"))
unfoldable pub encoded_length : Key → ℕ
encoded_length key = elim (encode_key key) [ raise e ↦ 0 | ok bs ↦ length bs ]

unfoldable pub sparse_interval : Config → Key → ℕ
unfolding encoded_length
sparse_interval config key = max 1 (config.block_size / (encoded_length key + 32))

-- the same loop as that of `WAL.recover`
unfoldable pub scan_all : Zlib → SsTable → List Entry
unfolding bytes_of
scan_all z t = read_all z (bytes_of t.content)

module _ (z : Zlib) (md5 : Bytes → ℕ) (config : Config) where
  -- the statement `if self._entry_count % sparse_interval == 0: self._index.add_key(…)`
  unfoldable pub sample : Key → ℕ → SsTable → Result (Unit {0}) × SparseIndex
  unfolding sparse_interval
  sample key offset t =
      if t.entry_count % sparse_interval config key == 0
      then add_key md5 key offset t.index
      else (ok tt, t.index)

  -- the statements of `write_record` behind `serialize_record`
  unfoldable pub append_record : Key → Result Bytes → SsTable → Result (Unit {0}) × SsTable
  unfolding bytes_of least greatest sample
  append_record key (raise e) t =
      (raise database_corrupted_error, record t { content = some (bytes_of t.content) })
  append_record key (ok bytes) t =
      let t' : SsTable = record t { content = some (bytes_of t.content ++ bytes) } in
      let (sampled, index') = sample key (length (bytes_of t.content)) t in
      elim sampled [
        | raise e ↦ (raise database_corrupted_error, record t' { index = index' })
        | ok _ ↦ (
          ok tt,
          record t' {
            index = index';
            minimum_key = some (least key t.minimum_key);
            maximum_key = some (greatest key t.maximum_key);
            entry_count = t.entry_count + 1;
            file_size = t.file_size + length bytes;
          },
        )
      ]

  unfoldable pub write_record :
      Key → Bytes → ℕ → Bool → Bool → SsTable → KeyCache → Result (Unit {0}) × SsTable × KeyCache
  unfolding append_record
  write_record key value timestamp deleted compress t keys =
      let (bytes, keys') = serialize_record z config key value timestamp deleted compress keys in
      let (result, t') = append_record key bytes t in (result, t', keys')

  -- the loop of `get`, for at most so many records
  unfoldable pub find : ℕ → Key → Bytes → Option Version
  find zero key s = none
  find (suc rounds) key s = elim (read_record_from_file z s) [
    | raise e ↦ none
    | ok (d, rest) ↦
        let later = find rounds key rest in
        if key_eq d.key key
        then some (record { value = d.value; timestamp = d.timestamp; deleted = d.deleted })
        else if key_lt key d.key
        then none
        else later
  ]

  -- A file that does not exist cannot be opened, and every exception gives `None`.
  unfoldable pub get : Key → SsTable → Option Version
  unfolding find
  get key t = elim (might_contain md5 key t.index) [
    | raise e ↦ none
    | ok false ↦ none
    | ok true ↦ elim (get_offset md5 key t.index) [
      | raise e ↦ none
      | ok none ↦ none
      | ok (some offset) ↦ find config.block_size key (drop offset (bytes_of t.content))
    ]
  ]
