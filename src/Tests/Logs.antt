-- ===== src/Tests/Logs.antt =====
-- A log file of two records, whole and cut short.
use yellowdb.Prelude.{◌≡◌, refl, false, true, [], ◌∷◌, ◌++◌, take}
use yellowdb.Errors.{ok}
use yellowdb.Text.{Bytes}
use yellowdb.Text.Utf8.{encode, encode_char}
use yellowdb.Serializer.Struct.{pack}
use yellowdb.Serializer.Write.{record_bytes}
use yellowdb.Wal.Recover.{Entry, read_all}
use yellowdb.Wal.Replay.{Encodes, nil, cons, fitting, read_all-take}
use yellowdb.Tests.Data.{bob, toy, small}

abbrev first : Entry
first = record { key = bob; value = 1 ∷ []; timestamp = 1; deleted = false }

abbrev second : Entry
second = record { key = bob; value = []; timestamp = 2; deleted = true }

abbrev first_bytes : Bytes
first_bytes =
    0 ∷ 0 ∷ 0 ∷ 3 ∷ 98 ∷ 111 ∷ 98 ∷ 0 ∷ 0 ∷ 0 ∷ 1 ∷ 1 ∷ 0 ∷ 0 ∷ 0 ∷ 0 ∷ 0 ∷ 0 ∷ 0 ∷ 1 ∷ 1 ∷ 1 ∷ []

abbrev second_bytes : Bytes
second_bytes =
    0 ∷ 0 ∷ 0 ∷ 3 ∷ 98 ∷ 111 ∷ 98 ∷ 0 ∷ 0 ∷ 0 ∷ 0 ∷ 0 ∷ 0 ∷ 0 ∷ 0 ∷ 0 ∷ 0 ∷ 0 ∷ 2 ∷ 0 ∷ 1 ∷ []

first_ok : record_bytes toy small bob (1 ∷ []) 1 false false ≡ ok first_bytes
unfolding record_bytes encode encode_char pack
first_ok = refl

second_ok : record_bytes toy small bob [] 2 true false ≡ ok second_bytes
unfolding record_bytes encode encode_char pack
second_ok = refl

log : Encodes toy small (first ∷ second ∷ []) (first_bytes ++ (second_bytes ++ []))
log = cons first_ok (cons second_ok nil)

read_all-take_example : read_all toy (take 30 (first_bytes ++ (second_bytes ++ []))) ≡ first ∷ []
unfolding fitting log
read_all-take_example = read_all-take toy small 30 log
