-- ===== src/Serializer/Truncation.antt =====
-- `read_record_from_file` on a record that is cut short.
use yellowdb.Prelude.{
  ℕ, ◌<◌, ◌≡◌, ◌≢◌, Bool, [], ◌++◌, append-nil, ap, take, drop, length, length-drop, length-append,
  take-append-drop, arith, sym, ◌∙◌,
}
use yellowdb.Errors.{Result, ok}
use yellowdb.Config.{Config}
use yellowdb.Text.{Key, Bytes}
use yellowdb.Serializer.Defs.{Zlib, Decoded}
use yellowdb.Serializer.Write.{record_bytes}
use yellowdb.Serializer.Reader.{Reader, IsLocal, local_rules}
use yellowdb.Serializer.Read.{read_record_from_file}
use yellowdb.Serializer.RoundTrip.{read-record_bytes}

pub read_record_from_file-IsLocal : (z : Zlib) → IsLocal (read_record_from_file z)
unfolding read_record_from_file
read_record_from_file-IsLocal z = search local_rules depth 30

rest_of {ℓ} : {A : Type ℓ} → Result (A × Bytes) → Bytes
rest_of (ok (a, s)) = s
rest_of (Result.raise e) = []

-- A local reader that takes all of `s` does not succeed on a part of `s` that is cut short.
cut {ℓ} :
    {A : Type ℓ} (m : Reader A) (n : ℕ) (s : Bytes) (a b : A) (r : Bytes)
    → IsLocal m
    → m s ≡ ok (a, [])
    → n < length s
    → m (take n s) ≢ ok (b, r)
unfolding rest_of
cut {A} m n s a b r l whole h e =
    let longer = l.extend (take n s) (drop n s) b r e in
    let q : ◌≡◌ {A = Result (A × Bytes)} (ok (b, r ++ drop n s)) (ok (a, [])) =
      sym longer ∙ (ap m (take-append-drop n s) ∙ whole) in
    absurd (
      omega (
        arith,
        ap (λ (x : Result (A × Bytes)). length (rest_of x)) q,
        length-append r (drop n s),
        length-drop n s,
      ))

module _ (z : Zlib) (config : Config) where
  -- read_record_from_file raises on every proper prefix of a serialized record, so a torn record is
  -- never taken for another one.
  pub read-take-record_bytes :
      (key : Key) (value : Bytes) (timestamp : ℕ) (deleted compress : Bool) (bs : Bytes) (n : ℕ)
      → record_bytes z config key value timestamp deleted compress ≡ ok bs
      → n < length bs
      → (d : Decoded) (rest : Bytes) → read_record_from_file z (take n bs) ≢ ok (d, rest)
  read-take-record_bytes key value timestamp deleted compress bs n h l d rest =
      cut (read_record_from_file z) n bs _ d rest (read_record_from_file-IsLocal z)
        (ap (read_record_from_file z) (sym (append-nil bs))
          ∙ read-record_bytes z config key value timestamp deleted compress bs [] h)
        l
