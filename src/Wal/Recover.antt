-- ===== src/Wal/Recover.antt =====
-- `recover`: every file is read from its start until reading raises.
use yellowdb.Prelude.{ℕ, zero, suc, Bool, List, [], ◌∷◌, ◌++◌, length}
use yellowdb.Errors.{ok, raise}
use yellowdb.Text.{Key, Bytes}
use yellowdb.Serializer.Defs.{Zlib}
use yellowdb.Serializer.Read.{read_record_from_file}
use yellowdb.Wal.Defs.{WalFile, Wal}

-- the tuple (key, value, timestamp, deleted)
pub record Entry : Type 0 where
  pub key : Key
  pub value : Bytes
  pub timestamp : ℕ
  pub deleted : Bool

module _ (z : Zlib) where
  -- The `while True` loop. A record takes more than one byte, so the length of the file is fuel
  -- enough.
  unfoldable pub read_rounds : ℕ → Bytes → List Entry
  read_rounds zero s = []
  read_rounds (suc fuel) s = elim (read_record_from_file z s) [
    | raise e ↦ []
    | ok (d, rest) ↦
        let entry : Entry = record {
          key = d.key;
          value = d.value;
          timestamp = d.timestamp;
          deleted = d.deleted;
        } in
        entry ∷ read_rounds fuel rest
  ]

  unfoldable pub read_all : Bytes → List Entry
  unfolding read_rounds read_record_from_file
  read_all s = read_rounds (suc (length s)) s

  unfoldable pub read_files : List WalFile → List Entry
  unfolding read_all
  read_files [] = []
  read_files (f ∷ fs) = read_all f.content ++ read_files fs

  unfoldable pub recover : Wal → List Entry
  unfolding read_files
  recover w = read_files w.files
