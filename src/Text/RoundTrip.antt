-- ===== src/Text/RoundTrip.antt =====
-- Decoding gives back what was encoded.
use yellowdb.Prelude.{
  ℕ, zero, suc, ◌≤◌, ◌≡◌, some, [], ◌∷◌, ◌++◌, arith, ap, length, length-append, Option-cases, inl,
  inr,
}
use yellowdb.Text.{Key, Bytes}
use yellowdb.Text.Utf8.{encode_char, encode, decode_char, decode_rounds, decode}

decode_char-encode_char :
    (c : ℕ) (b rest : Bytes) → encode_char c ≡ some b → decode_char (b ++ rest) ≡ some (c, rest)
unfolding encode_char decode_char
decode_char-encode_char c b rest h = ground arith

one-le-length : (c : ℕ) (b : Bytes) → encode_char c ≡ some b → 1 ≤ length b
unfolding encode_char
one-le-length c b h = ground arith

-- The bytes of `c ∷ k` are those of `c` and then those of `k`.
encode-cons :
    (c : ℕ) (k : Key) {bs : Bytes}
    → encode (c ∷ k) ≡ some bs
    → (b : Bytes) × (r : Bytes) × (encode_char c ≡ some b) × (encode k ≡ some r) × (bs ≡ b ++ r)
unfolding encode
encode-cons c k h = elim (Option-cases (encode_char c)) [
  | inl e ↦ absurd (ground arith)
  | inr (b, e) ↦ elim (Option-cases (encode k)) [
    | inl e' ↦ absurd (ground arith)
    | inr (r, e') ↦ (b, r, e, e', ground arith)
  ]
]

-- One round reads one character.
decode_rounds-cons :
    (fuel c : ℕ) (b rest : Bytes) (k : Key)
    → decode_char (b ++ rest) ≡ some (c, rest)
    → 1 ≤ length b
    → decode_rounds fuel rest ≡ some k
    → decode_rounds (suc fuel) (b ++ rest) ≡ some (c ∷ k)
unfolding decode_rounds
decode_rounds-cons fuel c [] rest k e l h = absurd (omega arith)
decode_rounds-cons fuel c (x ∷ b) rest k e l h = ground arith

decode_rounds-encode :
    (fuel : ℕ) (k : Key) {bs : Bytes}
    → encode k ≡ some bs
    → length bs ≤ fuel
    → decode_rounds fuel bs ≡ some k
unfolding decode_rounds encode
decode_rounds-encode fuel [] h l = ground arith
decode_rounds-encode zero (c ∷ k) {bs} h l =
    let (b, r, e, e', p) = encode-cons c k h in
    absurd (omega (arith, one-le-length c b e, length-append b r, ap length p))
decode_rounds-encode (suc fuel) (c ∷ k) {bs} h l =
    let (b, r, e, e', p) = encode-cons c k h in
    rw p (
      decode_rounds-cons fuel c b r k (decode_char-encode_char c b r e) (one-le-length c b e) (
        decode_rounds-encode fuel k e'
          (omega (arith, one-le-length c b e, length-append b r, ap length p))))

-- Whatever a key encodes to decodes to the key: `k.encode("utf-8").decode("utf-8") == k`.
pub decode-encode : (k : Key) (bs : Bytes) → encode k ≡ some bs → decode bs ≡ some k
unfolding decode
decode-encode k bs h = decode_rounds-encode (length bs) k h (omega arith)
