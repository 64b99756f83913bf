-- ===== src/Wal/Replay.antt =====
-- The reading loop of `recover` on a log, whole or cut short by a crash.
use yellowdb.Prelude.{
  ℕ, zero, suc, ◌-◌, ◌<◌, ◌≡◌, refl, sym, ap, ◌∙◌, inl, inr, Bool, false, List, [], ◌∷◌, ◌++◌,
  append-nil, append_assoc, length, length-append, take, take-append_of_le, take-append_of_ge,
  take-append_self, take-nil, arith, true, leb, leb→le, Bool-cases, if◌then◌else◌,
}
use yellowdb.Errors.{ok, Result-cases}
use yellowdb.Config.{Config}
use yellowdb.Text.{Bytes}
use yellowdb.Serializer.Defs.{Zlib}
use yellowdb.Serializer.Write.{record_bytes, compress_value}
use yellowdb.Serializer.RoundTrip.{value_read, read-record_bytes, length-record_bytes}
use yellowdb.Serializer.Truncation.{read-take-record_bytes}
use yellowdb.Serializer.Reader.{read_exact}
use yellowdb.Serializer.Read.{read_record_from_file}
use yellowdb.Wal.Recover.{Entry, read_rounds, read_all}

module _ (z : Zlib) (config : Config) where
  -- the bytes are those of the entries, one record after the other, as `WAL.write` encodes them
  pub data Encodes : List Entry → Bytes → Type 0 where
    nil : Encodes [] []
    cons :
        {e : Entry} {b : Bytes} {es : List Entry} {bs : Bytes}
        → record_bytes z config e.key e.value e.timestamp e.deleted false ≡ ok b
        → Encodes es bs
        → Encodes (e ∷ es) (b ++ bs)

  pub Encodes-append :
      {es fs : List Entry} {a b : Bytes} → Encodes es a → Encodes fs b → Encodes (es ++ fs) (a ++ b)
  Encodes-append nil y = y
  Encodes-append (cons {b = c} {bs = r} p x) y = rw append_assoc (cons p (Encodes-append x y))

  value_read_uncompressed :
      (value : Bytes) (deleted : Bool) → value_read z config value deleted false ≡ value
  unfolding value_read compress_value
  value_read_uncompressed value deleted = ground arith

  -- one round of the loop at a whole record
  read_rounds-cons :
      (fuel : ℕ) (e : Entry) (b rest : Bytes)
      → record_bytes z config e.key e.value e.timestamp e.deleted false ≡ ok b
      → read_rounds z (suc fuel) (b ++ rest) ≡ e ∷ read_rounds z fuel rest
  unfolding read_rounds
  read_rounds-cons fuel e b rest h =
      rw
        (read-record_bytes z config e.key e.value e.timestamp e.deleted false b rest h, read_rounds)
        (rw (value_read_uncompressed e.value e.deleted) refl)

  read_rounds-nil : (fuel : ℕ) → read_rounds z fuel [] ≡ []
  unfolding read_rounds read_record_from_file read_exact
  read_rounds-nil zero = refl
  read_rounds-nil (suc fuel) = refl

  -- one round at a record that is cut short
  read_rounds-cut :
      (fuel n : ℕ) (e : Entry) (b : Bytes)
      → record_bytes z config e.key e.value e.timestamp e.deleted false ≡ ok b
      → n < length b
      → read_rounds z fuel (take n b) ≡ []
  unfolding read_rounds
  read_rounds-cut zero n e b h l = refl
  read_rounds-cut (suc fuel) n e b h l = elim (Result-cases (read_record_from_file z (take n b))) [
    | inl (x, p) ↦ rw (p, read_rounds) refl
    | inr ((d, r), p) ↦
        absurd
          (read-take-record_bytes z config e.key e.value e.timestamp e.deleted false b n h l d r p)
  ]

  -- the entries whose records lie whole within the first `n` bytes
  unfoldable pub fitting : {es : List Entry} {bs : Bytes} → ℕ → Encodes es bs → List Entry
  fitting n nil = []
  fitting n (cons {e} {b} p x) =
      let rest = fitting (n - length b) x in if leb (length b) n then e ∷ rest else []

  read_rounds-take :
      {es : List Entry} {bs : Bytes} (fuel n : ℕ) (x : Encodes es bs)
      → length (take n bs) < fuel
      → read_rounds z fuel (take n bs) ≡ fitting n x
  unfolding fitting
  read_rounds-take fuel n nil h = rw (take-nil n) (read_rounds-nil fuel)
  read_rounds-take zero n (cons p x) h = absurd (omega arith)
  read_rounds-take (suc fuel) n (cons {e} {b} {es} {bs} p x) h =
      elim (Bool-cases (leb (length b) n)) [
        | inl q ↦
            let l = leb→le _ _ q in
            let t = take-append_of_ge n b bs l in
            rw (t, q)
              (read_rounds-cons fuel e b (take (n - length b) bs) p
                ∙ ap (◌∷◌ e) (
                    read_rounds-take fuel (n - length b) x (
                      omega (
                        arith,
                        h,
                        ap length t,
                        length-append b (take (n - length b) bs),
                        length-record_bytes z config e.key e.value e.timestamp e.deleted false p,
                      ))))
        | inr q ↦ rw q (
            rw (take-append_of_le n b bs (ground arith))
              (read_rounds-cut (suc fuel) n e b p (ground arith)))
      ]

  -- For bytes that are the records of a list of entries, one after the other, as WAL.write encodes
  -- them, the reading loop of recover applied to the first n of these bytes returns exactly the
  -- entries whose records lie whole within them, in the order written.
  pub read_all-take :
      {es : List Entry} {bs : Bytes} (n : ℕ) (x : Encodes es bs)
      → read_all z (take n bs) ≡ fitting n x
  unfolding read_all
  read_all-take {bs = bs} n x = read_rounds-take (suc (length (take n bs))) n x (omega arith)

  fitting-whole : {es : List Entry} {bs : Bytes} (x : Encodes es bs) → fitting (length bs) x ≡ es
  unfolding fitting
  fitting-whole nil = refl
  fitting-whole (cons {e} {b} {es} {bs} p x) =
      let l : length (b ++ bs) - length b ≡ length bs = omega (arith, length-append b bs) in
      let q : leb (length b) (length (b ++ bs)) ≡ true = ground (arith, length-append b bs) in
      rw (q, l) (ap (◌∷◌ e) (fitting-whole x))

  -- A whole log file gives back all its entries, in order.
  pub read_all-Encodes : {es : List Entry} {bs : Bytes} → Encodes es bs → read_all z bs ≡ es
  read_all-Encodes {bs = bs} x =
      let t : take (length bs) bs ≡ bs =
        ap (take (length bs)) (sym (append-nil bs)) ∙ take-append_self (length bs) bs [] refl in
      rw t at (read_all-take (length bs) x) ∙ fitting-whole x
