-- ===== src/Platform.antt =====
-- What the program runs on: the packages that are not part of the repository, the configuration,
-- and the files that the data directory holds before the database is opened.
use yellowdb.Prelude.{ℕ, Option}
use yellowdb.Prelude.Int.{ℤ}
use yellowdb.Config.{Config}
use yellowdb.Text.{Key, Bytes}
use yellowdb.Serializer.Defs.{Zlib}
use yellowdb.Memtable.SortedDict.{SortedDict}
use yellowdb.Memtable.Table.{MemtableEntry}

pub record Platform : Type 1 where
  pub z : Zlib
  pub md5 : Bytes → ℕ
  pub hash : Key → ℤ
  pub sd : SortedDict MemtableEntry
  pub config : Config
  -- what the file level_<level>_seq_<sequence>.sst held, if it was there
  pub old_file : ℕ → ℕ → Option Bytes
