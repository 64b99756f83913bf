-- ===== src/Tests/Tables.antt =====
-- The memtable, its shards and the buffer pool at concrete contents.
use yellowdb.Prelude.{◌≡◌, refl, false, some, [], ◌∷◌, arith}
use yellowdb.Errors.{ok}
use yellowdb.Text.Utf8.{encode, encode_char}
use yellowdb.Text.Order.{key_lt, key_eq}
use yellowdb.Dict.{lookup}
use yellowdb.Items.{modify}
use yellowdb.Serializer.KeyCache.{encode_key}
use yellowdb.Memtable.Sorted.{insert_sorted}
use yellowdb.Memtable.SortedDict.{SortedDict, plain}
use yellowdb.Memtable.Table
use yellowdb.Memtable.Table.{MemtableEntry, Memtable, entry}
use yellowdb.Memtable.Laws
use yellowdb.Memtable.Concurrent
use yellowdb.Memtable.Concurrent.{ConcurrentMemtables}
use yellowdb.Memtable.Shards
use yellowdb.Memtable.Views
use yellowdb.Prelude.Int.{mod_ℤ}
use yellowdb.Tests.Data.{alice, bob, hash}

abbrev sd : SortedDict MemtableEntry
sd = plain MemtableEntry

abbrev empty : Memtable sd
empty = record { entries = []; size = 0; entry_count = 0 }

empty-IsValid : Laws.IsValid sd empty
unfolding Laws.total_bytes
empty-IsValid = record { sorted = tt; filed = tt; counted = refl }

abbrev one : Memtable sd
one = record { entries = (bob, entry bob (1 ∷ 2 ∷ []) 1 false) ∷ []; size = 5; entry_count = 1 }

one_ok : Table.put sd bob (1 ∷ 2 ∷ []) 1 false empty ≡ ok one
unfolding Table.put Table.old_bytes Table.entry_bytes encode_key encode encode_char insert_sorted
    lookup
one_ok = refl

abbrev two : Memtable sd
two = record {
  entries = (alice, entry alice (9 ∷ []) 2 false) ∷ (bob, entry bob (1 ∷ 2 ∷ []) 1 false) ∷ [];
  size = 11;
  entry_count = 2;
}

two_ok : Table.put sd alice (9 ∷ []) 2 false one ≡ ok two
unfolding Table.put Table.old_bytes Table.entry_bytes encode_key encode encode_char insert_sorted
    lookup key_lt key_eq
two_ok = refl

one-IsValid : Laws.IsValid sd one
one-IsValid = Laws.put-IsValid sd bob (1 ∷ 2 ∷ []) 1 false empty-IsValid one_ok

two-IsValid : Laws.IsValid sd two
two-IsValid = Laws.put-IsValid sd alice (9 ∷ []) 2 false one-IsValid two_ok

abbrev shards : ConcurrentMemtables sd hash
shards = record { memtables = empty ∷ empty ∷ []; count = 2 }

shards-IsValid : Shards.IsValid sd hash shards
shards-IsValid = record {
  positive = omega arith;
  sized = refl;
  shards = (empty-IsValid, tt, (empty-IsValid, tt, tt));
}

-- 'b' + 'o' + 'b' is odd
abbrev shards1 : ConcurrentMemtables sd hash
shards1 = record { memtables = empty ∷ one ∷ []; count = 2 }

put_shards : Concurrent.put sd hash bob (1 ∷ 2 ∷ []) 1 false shards ≡ ok shards1
unfolding Concurrent.put Concurrent.get_memtable_index mod_ℤ modify Table.put Table.old_bytes
    Table.entry_bytes encode_key encode encode_char insert_sorted lookup
put_shards = refl

get-put_sharded_example :
    Concurrent.get sd hash bob shards1 ≡ ok (some (entry bob (1 ∷ 2 ∷ []) 1 false))
unfolding key_eq
get-put_sharded_example =
    Views.get-put_sharded sd hash bob (1 ∷ 2 ∷ []) 1 false shards-IsValid put_shards bob
