-- ===== src/Wal/Defs.antt =====
-- `WALBatch` and `WAL`. A log file is known by its sequence number, and the files are listed in the
-- order of their numbers: for numbers below 1,000,000, which have six digits in
-- "wal_NNNNNN.wal", that is the order of the names that `sorted(glob(…))` gives. `content` is
-- what was written through the handle, `durable` the length that an fsync has put on the disk. The
-- disk itself does not fail. `keys` is the key cache of the class `Serializer`, which the calls of
-- `serialize_record` use.
use yellowdb.Prelude.{
  ℕ, zero, suc, ◌+◌, ◌-◌, Bool, true, false, ◌||◌, Option, none, some, List, [], ◌∷◌, ◌++◌, map,
  max, length, leb, ◌==◌, if◌then◌else◌,
}
use yellowdb.Errors.{Result, ok, raise, wal_error, ◌>>=◌}
use yellowdb.Config.{Config}
use yellowdb.Text.{Key, Bytes}
use yellowdb.Serializer.Defs.{Zlib}
use yellowdb.Serializer.KeyCache.{KeyCache}
use yellowdb.Serializer.Write.{serialize_record}

pub record WalBatch : Type 0 where
  pub max_size : ℕ
  pub entries : List Bytes
  pub entry_count : ℕ

unfoldable pub add_entry : Bytes → WalBatch → Bool × WalBatch
add_entry bytes b =
    let b' : WalBatch = record b {
      entries = b.entries ++ bytes ∷ [];
      entry_count = b.entry_count + 1;
    } in
    (leb b'.max_size b'.entry_count, b')

-- b"".join(entries)
unfoldable pub join : List Bytes → Bytes
join [] = []
join (b ∷ bs) = b ++ join bs

unfoldable pub get_bytes : WalBatch → Bytes
unfolding join
get_bytes b = join b.entries

unfoldable pub clear : WalBatch → WalBatch
clear b = record b { entries = []; entry_count = 0 }

pub record WalFile : Type 0 where
  pub sequence : ℕ
  pub content : Bytes
  pub durable : ℕ

pub record Wal : Type 0 where
  pub files : List WalFile
  pub current_wal_file : Option ℕ
  pub handle_open : Bool
  pub entry_count : ℕ
  pub current_wal_size : ℕ
  pub batch_size_counter : ℕ
  pub batch : WalBatch
  pub keys : KeyCache

unfoldable pub new : Config → List WalFile → KeyCache → Wal
new config files keys = record {
  files = files;
  current_wal_file = none;
  handle_open = false;
  entry_count = 0;
  current_wal_size = 0;
  batch_size_counter = 0;
  batch = record { max_size = config.wal_batch_size; entries = []; entry_count = 0 };
  keys = keys;
}

-- handle.write(bytes), where the handle is that of file `current`
unfoldable pub write_handle : Option ℕ → Bytes → List WalFile → List WalFile
write_handle none bytes files = files
write_handle (some current) bytes files =
    map
      (λ (f : WalFile).
        if f.sequence == current then record f { content = f.content ++ bytes } else f)
      files

-- handle.flush(); os.fsync(handle.fileno())
unfoldable pub sync_handle : Option ℕ → List WalFile → List WalFile
sync_handle none files = files
sync_handle (some current) files =
    map
      (λ (f : WalFile).
        if f.sequence == current then record f { durable = length f.content } else f)
      files

unfoldable pub flush_batch : Config → Wal → Result Wal
unfolding write_handle sync_handle get_bytes clear
flush_batch config w =
    let batch_bytes = get_bytes w.batch in
    let written = write_handle w.current_wal_file batch_bytes w.files in
    if w.batch.entry_count == 0
    then ok w
    else if w.handle_open
    then ok (record w {
      files = if config.sync_wal then sync_handle w.current_wal_file written else written;
      current_wal_size = w.current_wal_size + length batch_bytes;
      batch = clear w.batch;
      batch_size_counter = 0;
    })
    else raise wal_error

-- 0 if there is no file
unfoldable pub get_latest_wal_sequence : List WalFile → ℕ
get_latest_wal_sequence [] = 0
get_latest_wal_sequence (f ∷ fs) = max f.sequence (get_latest_wal_sequence fs)

-- the log with a new, empty file that is open
unfoldable pub with_new_file : Wal → Wal
unfolding get_latest_wal_sequence
with_new_file w =
    let sequence = get_latest_wal_sequence w.files + 1 in
    let file : WalFile = record { sequence = sequence; content = []; durable = 0 } in
    record w {
      files = w.files ++ file ∷ [];
      current_wal_file = some sequence;
      handle_open = true;
      entry_count = 0;
      current_wal_size = 0;
    }

unfoldable pub open_new_wal_file : Config → Wal → Result Wal
unfolding flush_batch with_new_file
open_new_wal_file config w = do
  w' ← (if w.handle_open then flush_batch config w else ok w)
  ok (with_new_file w')

module _ (z : Zlib) (config : Config) where
  -- the end of `write`, by what the flush gives
  unfoldable pub end_write : Wal → Result Wal → Result (Unit {0}) × Wal
  end_write w (raise e) = (raise wal_error, w)
  end_write w (ok w') = (ok tt, record w' { entry_count = w'.entry_count + 1 })

  -- the statements `batch_full = …` and `self._batch_size_counter += len(record)`
  unfoldable pub added : Bytes → Wal → Wal
  unfolding add_entry
  added bytes w = record w {
    batch = (add_entry bytes w.batch).1;
    batch_size_counter = w.batch_size_counter + length bytes;
  }

  -- the statements of `write` behind `serialize_record`
  unfoldable pub log_record : Result Bytes → Wal → Result (Unit {0}) × Wal
  unfolding added flush_batch end_write
  log_record (raise e) w = (raise wal_error, w)
  log_record (ok bytes) w =
      let batch_full = (add_entry bytes w.batch).0 in
      let w' = added bytes w in
      end_write w' (
        if batch_full || leb config.wal_sync_interval w'.batch_size_counter
        then flush_batch config w'
        else ok w')

  -- the statements of `write` behind `_open_new_wal_file`
  unfoldable pub log_opened : Key → Bytes → ℕ → Bool → Wal → Result Wal → Result (Unit {0}) × Wal
  unfolding log_record
  log_opened key value timestamp deleted w (raise e) = (raise wal_error, w)
  log_opened key value timestamp deleted w (ok w') =
      let (bytes, keys') = serialize_record z config key value timestamp deleted false w'.keys in
      log_record bytes (record w' { keys = keys' })

  unfoldable pub write : Key → Bytes → ℕ → Bool → Wal → Result (Unit {0}) × Wal
  unfolding log_opened open_new_wal_file
  write key value timestamp deleted w =
      log_opened key value timestamp deleted w
        (if w.handle_open then ok w else open_new_wal_file config w)

-- The result is the old file's number beside the new state.
unfoldable pub rotate : Config → Wal → Result (Option ℕ × Wal)
unfolding open_new_wal_file
rotate config w = do
  w1 ← flush_batch config w
  let w2 : Wal =
      if w1.handle_open then record w1 { files = sync_handle w.current_wal_file w1.files } else w1
  w3 ← open_new_wal_file config w2
  ok (w.current_wal_file, w3)

unfoldable pub close : Config → Wal → Result Wal
unfolding flush_batch
close config w = do
  w' ← flush_batch config w
  ok (
      if w'.handle_open
      then record w' { files = sync_handle w'.current_wal_file w'.files; handle_open = false }
      else w')

-- `wal_files[:-keep_count]`; with 0 that is `wal_files[:0]`, no file
unfoldable pub deleted_files : ℕ → List WalFile → ℕ
deleted_files zero files = 0
deleted_files (suc k) files = length files - suc k

unfoldable pub drop_files : ℕ → List WalFile → List WalFile
drop_files zero files = files
drop_files (suc n) [] = []
drop_files (suc n) (f ∷ fs) = drop_files n fs

unfoldable pub delete_old_wal_files : ℕ → Wal → Wal
unfolding deleted_files drop_files
delete_old_wal_files keep_count w = record w {
  files = drop_files (deleted_files keep_count w.files) w.files;
}

unfoldable pub get_entry_count : Wal → ℕ
get_entry_count w = w.entry_count

unfoldable pub get_size : Wal → ℕ
get_size w = w.current_wal_size
