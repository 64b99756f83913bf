-- ===== src/Wal/Names.antt =====
-- The names of the log files, and the order in which `sorted` lists them.
use yellowdb.Prelude.{ℕ, ◌<◌, ◌≡◌, true, ◌++◌, ◌∙◌}
use yellowdb.Text.{Key}
use yellowdb.Text.Literal.{codes}
use yellowdb.Text.Order.{key_lt}
use yellowdb.Text.Decimal.{padded}
use yellowdb.Text.Padded.{key_lt-prefix, key_lt-padded}

unfoldable pub get_wal_filename : ℕ → Key
unfolding padded
get_wal_filename sequence = codes "wal_" ++ (padded sequence ++ codes ".wal")

-- For sequence numbers below 1,000,000 the order of the names of log files is that of their
-- numbers.
pub get_wal_filename-lt :
    (m n : ℕ) → m < n → n < 1000000 → key_lt (get_wal_filename m) (get_wal_filename n) ≡ true
unfolding get_wal_filename
get_wal_filename-lt m n h l =
    key_lt-prefix (codes "wal_") (padded m ++ codes ".wal") (padded n ++ codes ".wal")
    ∙ key_lt-padded m n (codes ".wal") (codes ".wal") h l
