-- ===== src/Serializer/Agree.antt =====
-- The two readers agree: `deserialize_record data offset` is `read_record_from_file` at a file
-- whose position is `offset`.
use yellowdb.Prelude.{
  ℕ, ◌+◌, ◌≤◌, ◌<◌, ◌≡◌, refl, Bool, false, leb, length, drop, arith, length-drop, drop-drop,
  Bool-cases, inl, inr, leb→le,
}
use yellowdb.Errors.{Result, ok, raise, serialization_error, guard}
use yellowdb.Errors
use yellowdb.Text.{Key, Bytes}
use yellowdb.Serializer.Defs.{Zlib, Decoded}
use yellowdb.Serializer.Fields.{slice, decode_key, inflate}
use yellowdb.Serializer.Deserialize.{need, deserialize_record}
use yellowdb.Serializer.Reader.{Reader, ◌>>=◌, lift, read_exact, read_exact-ok, read_exact-short}
use yellowdb.Serializer.Read.{read_record_from_file}

-- the result of a reader, without the rest of the file
abbrev pub result_of {ℓ} : {A : Type ℓ} → Result (A × Bytes) → Result A
result_of (ok (a, s)) = ok a
result_of (raise e) = raise e

module _ (bytes : Bytes) where
  -- One field of `n` bytes at position `p`.
  field_step :
      (p n : ℕ) (k : Result Decoded) (f : Bytes → Reader Decoded)
      → p ≤ length bytes
      → (p + n ≤ length bytes → k ≡ result_of (f (slice bytes p n) (drop (p + n) bytes)))
      → Errors.◌>>◌ (need bytes p n) k ≡ result_of ((read_exact n >>= f) (drop p bytes))
  field_step p n k f h step = elim (Bool-cases (leb (p + n) (length bytes))) [
    | inl fits ↦
        let l : p + n ≤ length bytes = leb→le _ _ fits in
        rw fits (
          rw (read_exact-ok n (drop p bytes) (omega (arith, length-drop p bytes)))
            (rw (drop-drop n p bytes) (step l)))
    | inr short ↦
        rw short (rw (read_exact-short n (drop p bytes) (ground (arith, length-drop p bytes))) refl)
  ]

  lift_step {ℓ} :
      {A : Type ℓ} (r : Result A) (s : Bytes) (k : A → Result Decoded) (f : A → Reader Decoded)
      → ((a : A) → k a ≡ result_of (f a s))
      → Errors.◌>>=◌ r k ≡ result_of ((lift r >>= f) s)
  unfolding lift
  lift_step (ok a) s k f step = step a
  lift_step (raise e) s k f step = refl

ok-Decoded :
    {m n : ℕ} {k : Key} {v : Bytes} {t : ℕ} {d c : Bool}
    → m ≡ n
    → ◌≡◌ {A = Result Decoded}
        (ok (record {
          bytes_read = m;
          key = k;
          value = v;
          timestamp = t;
          deleted = d;
          compressed = c;
        }))
        (ok (record {
          bytes_read = n;
          key = k;
          value = v;
          timestamp = t;
          deleted = d;
          compressed = c;
        }))
ok-Decoded e = rw e refl

module _ (z : Zlib) (bytes : Bytes) (offset : ℕ) where
  out_of_range :
      length bytes < offset
      → deserialize_record z bytes offset ≡ result_of (read_record_from_file z (drop offset bytes))
  unfolding deserialize_record read_record_from_file
  out_of_range h =
      let short : leb (offset + 4) (length bytes) ≡ false = ground arith in
      rw short
        (rw (read_exact-short 4 (drop offset bytes) (omega (arith, length-drop offset bytes))) refl)

  in_range :
      offset ≤ length bytes
      → deserialize_record z bytes offset ≡ result_of (read_record_from_file z (drop offset bytes))
  unfolding deserialize_record read_record_from_file
  in_range h = field_step bytes offset 4 _ _ h λ h1. field_step bytes _ _ _ _ h1 λ h2.
      lift_step bytes (decode_key _) _ _ _ λ key. field_step bytes _ 4 _ _ h2 λ h3.
        field_step bytes _ _ _ _ h3 λ h4. field_step bytes _ 8 _ _ h4 λ h5.
          field_step bytes _ 1 _ _ h5 λ h6.
            field_step bytes _ 1 _ _ h6
              λ h7. lift_step bytes (inflate z _ _ _) _ _ _ λ value. ok-Decoded (omega arith)

  -- For all bytes and every offset, in range or not, deserialize_record returns the record, or
  -- raises, exactly as read_record_from_file does for a file positioned at the offset.
  pub deserialize_record-eq-read :
      deserialize_record z bytes offset ≡ result_of (read_record_from_file z (drop offset bytes))
  deserialize_record-eq-read = elim (Bool-cases (leb offset (length bytes))) [
    | inl h ↦ in_range (leb→le _ _ h)
    | inr h ↦ out_of_range (ground arith)
  ]
