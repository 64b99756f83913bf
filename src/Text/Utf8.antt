-- ===== src/Text/Utf8.antt =====
-- `str.encode("utf-8")` and `bytes.decode("utf-8")`, both strict. Encoding fails at a surrogate,
-- decoding at any byte sequence that no encoding gives.
use yellowdb.Prelude.{
  ℕ, zero, suc, ◌+◌, ◌-◌, ◌*◌, ◌/◌, ◌%◌, Bool, ◌&&◌, ◌||◌, Option, none, some, [], ◌∷◌, ◌++◌, ltb,
  leb, length, if◌then◌else◌,
}
use yellowdb.Text.{Key, Bytes}

unfoldable pub encode_char : ℕ → Option Bytes
encode_char c =
    if ltb c 0x80
    then some (c ∷ [])
    else if ltb c 0x800
    then some ((192 + c / 64) ∷ (128 + c % 64) ∷ [])
    else if leb 0xd800 c && leb c 0xdfff
    then none
    else if ltb c 0x10000
    then some ((224 + c / 4096) ∷ (128 + c / 64 % 64) ∷ (128 + c % 64) ∷ [])
    else if ltb c 0x110000
    then some
        ((240 + c / 262144) ∷ (128 + c / 4096 % 64) ∷ (128 + c / 64 % 64) ∷ (128 + c % 64) ∷ [])
    else none

unfoldable pub encode : Key → Option Bytes
encode [] = some []
encode (c ∷ k) = elim (encode_char c) [
  | none ↦ none
  | some b ↦ elim (encode k) [ none ↦ none | some bs ↦ some (b ++ bs) ]
]

is_continuation : ℕ → Bool
is_continuation b = leb 128 b && leb b 191

two_bytes : ℕ → Bytes → Option (ℕ × Bytes)
unfolding is_continuation
two_bytes a (b ∷ r) = if is_continuation b then some ((a - 192) * 64 + (b - 128), r) else none
two_bytes a _ = none

three_bytes : ℕ → Bytes → Option (ℕ × Bytes)
unfolding is_continuation
three_bytes a (b ∷ c ∷ r) =
    let n = (a - 224) * 4096 + (b - 128) * 64 + (c - 128) in
    if is_continuation b && is_continuation c && leb 0x800 n && (ltb n 0xd800 || ltb 0xdfff n)
    then some (n, r)
    else none
three_bytes a _ = none

four_bytes : ℕ → Bytes → Option (ℕ × Bytes)
unfolding is_continuation
four_bytes a (b ∷ c ∷ d ∷ r) =
    let n = (a - 240) * 262144 + (b - 128) * 4096 + (c - 128) * 64 + (d - 128) in
    if is_continuation b
      && is_continuation c
      && is_continuation d
      && leb 0x10000 n
      && ltb n 0x110000
    then some (n, r)
    else none
four_bytes a _ = none

unfoldable pub decode_char : Bytes → Option (ℕ × Bytes)
unfolding two_bytes three_bytes four_bytes
decode_char [] = none
decode_char (a ∷ r) =
    if ltb a 128
    then some (a, r)
    else if ltb a 194
    then none
    else if ltb a 224
    then two_bytes a r
    else if ltb a 240
    then three_bytes a r
    else if ltb a 245
    then four_bytes a r
    else none

-- One character a round, and each takes at least one byte: the length is fuel enough.
unfoldable pub decode_rounds : ℕ → Bytes → Option Key
decode_rounds fuel [] = some []
decode_rounds zero (b ∷ bs) = none
decode_rounds (suc fuel) (b ∷ bs) = elim (decode_char (b ∷ bs)) [
  | none ↦ none
  | some (c, rest) ↦ elim (decode_rounds fuel rest) [ none ↦ none | some k ↦ some (c ∷ k) ]
]

unfoldable pub decode : Bytes → Option Key
unfolding decode_rounds decode_char
decode bs = decode_rounds (length bs) bs
