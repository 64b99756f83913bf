-- ===== src/Text/Defs.antt =====
-- The two kinds of text.
use yellowdb.Prelude.{ℕ, List}

abbrev pub Key : Type 0
Key = List ℕ

abbrev pub Bytes : Type 0
Bytes = List ℕ
