-- ===== src/Tests/Names.antt =====
-- The names of files at concrete numbers.
use yellowdb.Prelude.{◌≡◌, refl, true, arith}
use yellowdb.Text.Literal.{codes}
use yellowdb.Text.Order.{key_lt}
use yellowdb.Text.Decimal.{digits_in, digits, zeros, padded}
use yellowdb.Wal.Names.{get_wal_filename, get_wal_filename-lt}
use yellowdb.SsTable.Names.{create_filename}

wal_forty_two : get_wal_filename 42 ≡ codes "wal_000042.wal"
unfolding get_wal_filename padded digits digits_in zeros
wal_forty_two = refl

table_one : create_filename 1 0 ≡ codes "level_0_seq_000001.sst"
unfolding create_filename padded digits digits_in zeros
table_one = refl

-- the order of the names is not that of the numbers from a million on
millionth : key_lt (get_wal_filename 1000000) (get_wal_filename 999999) ≡ true
unfolding get_wal_filename padded digits digits_in zeros key_lt
millionth = refl

get_wal_filename-lt_example : key_lt (get_wal_filename 9) (get_wal_filename 10) ≡ true
get_wal_filename-lt_example = get_wal_filename-lt 9 10 (omega arith) (omega arith)
