-- ===== src/SsTable/Scan.antt =====
-- `scan_all` after `write_record`.
use yellowdb.Prelude.{
  ℕ, zero, suc, ◌<◌, ◌≡◌, refl, ap, ◌∙◌, Bool, List, [], ◌∷◌, ◌++◌, append-nil, append_assoc,
  length, length-append, arith, inl, inr, sym,
}
use yellowdb.Errors.{Result, ok, raise, Result-cases, database_corrupted_error}
use yellowdb.Config.{Config}
use yellowdb.Text.{Key, Bytes}
use yellowdb.Serializer.Defs.{Zlib}
use yellowdb.Serializer.KeyCache.{KeyCache, IsCoherent}
use yellowdb.Serializer.Write.{record_bytes, serialize_record, serialize_record-eq-record_bytes}
use yellowdb.Serializer.RoundTrip.{value_read, read-record_bytes, length-record_bytes}
use yellowdb.Serializer.Reader.{read_exact}
use yellowdb.Serializer.Read.{read_record_from_file}
use yellowdb.Wal.Recover.{Entry, read_rounds, read_all}
use yellowdb.SsTable.Defs.{SsTable, bytes_of, sample, append_record, write_record, scan_all}

module _ (z : Zlib) (config : Config) where
  -- what a reader gets for a record written with these arguments
  abbrev pub as_read : Key → Bytes → ℕ → Bool → Bool → Entry
  as_read key value timestamp deleted compress = record {
    key = key;
    value = value_read z config value deleted compress;
    timestamp = timestamp;
    deleted = deleted;
  }

  -- the bytes are whole records, one after the other, which read as the entries
  pub data Holds : List Entry → Bytes → Type 0 where
    nil : Holds [] []
    cons :
        (key : Key) (value : Bytes) (timestamp : ℕ) (deleted compress : Bool) {b : Bytes}
        {es : List Entry} {bs : Bytes}
        → record_bytes z config key value timestamp deleted compress ≡ ok b
        → Holds es bs
        → Holds (as_read key value timestamp deleted compress ∷ es) (b ++ bs)

  pub Holds-append :
      {es fs : List Entry} {a b : Bytes} → Holds es a → Holds fs b → Holds (es ++ fs) (a ++ b)
  Holds-append nil y = y
  Holds-append (cons k v t d c p x) y = rw append_assoc (cons k v t d c p (Holds-append x y))

  read_rounds-Holds :
      (fuel : ℕ) {es : List Entry} {bs : Bytes}
      → Holds es bs
      → length bs < fuel
      → read_rounds z fuel bs ≡ es
  unfolding read_rounds read_record_from_file read_exact
  read_rounds-Holds zero x h = absurd (omega arith)
  read_rounds-Holds (suc fuel) nil h = refl
  read_rounds-Holds (suc fuel) (cons k v t d c {b} {es} {bs} p x) h =
      let lt : length bs < fuel =
        omega (arith, length-append b bs, length-record_bytes z config k v t d c p) in
      rw (read-record_bytes z config k v t d c b bs p, read_rounds)
        (ap (◌∷◌ (as_read k v t d c)) (read_rounds-Holds fuel x lt))

  pub scan_all-Holds :
      (es : List Entry) (t : SsTable) → Holds es (bytes_of t.content) → scan_all z t ≡ es
  unfolding scan_all read_all
  scan_all-Holds es t x = read_rounds-Holds (suc (length (bytes_of t.content))) x (omega arith)

  module _ (md5 : Bytes → ℕ) where
    -- what an `append_record` that does not raise does
    pub append_record_inv :
        (key : Key) (r : Result Bytes) (t : SsTable)
        → (append_record z md5 config key r t).0 ≡ ok tt
        → (b : Bytes) × (r ≡ ok b)
          × ((sample z md5 config key (length (bytes_of t.content)) t).0 ≡ ok tt)
          × (bytes_of (append_record z md5 config key r t).1.content ≡ bytes_of t.content ++ b)
          × ((append_record z md5 config key r t).1.index
              ≡ (sample z md5 config key (length (bytes_of t.content)) t).1)
    unfolding append_record
    append_record_inv key (raise e) t h = absurd (cc)
    append_record_inv key (ok b) t h =
        elim (Result-cases (sample z md5 config key (length (bytes_of t.content)) t).0) [
          | inl (e, p) ↦
              let r : (append_record z md5 config key (ok b) t).0 ≡ raise database_corrupted_error =
                rw (p, append_record) refl in
              absurd (cc)
          | inr (tt, p) ↦
              (b, refl, p, rw (p, append_record, bytes_of) refl, rw (p, append_record) refl)
        ]

    pub write_record-Holds :
        (key : Key) (value : Bytes) (timestamp : ℕ) (deleted compress : Bool) (t : SsTable)
        (keys : KeyCache) {es : List Entry}
        → IsCoherent keys
        → Holds es (bytes_of t.content)
        → (write_record z md5 config key value timestamp deleted compress t keys).0 ≡ ok tt
        → Holds (es ++ as_read key value timestamp deleted compress ∷ []) (
            bytes_of
              (write_record z md5 config key value timestamp deleted compress t keys).1.content)
    unfolding write_record
    write_record-Holds key value timestamp deleted compress t keys {es} k x h =
        let (same, _) =
          serialize_record-eq-record_bytes z config key value timestamp deleted compress keys k in
        let r = (serialize_record z config key value timestamp deleted compress keys).0 in
        let (b, q, _, c, _) = append_record_inv key r t h in
        let y = Holds-append x (cons key value timestamp deleted compress (sym same ∙ q) nil) in
        let y' = rw append-nil at y in rw c y'

    -- With a coherent key cache, after a call of write_record that does not raise, scan_all of a
    -- table whose file holds whole records returns the entries that it returned before, and then
    -- the new one, as a reader gets it.
    pub scan_all-write_record :
        (key : Key) (value : Bytes) (timestamp : ℕ) (deleted compress : Bool) (t : SsTable)
        (keys : KeyCache) {es : List Entry}
        → IsCoherent keys
        → Holds es (bytes_of t.content)
        → (write_record z md5 config key value timestamp deleted compress t keys).0 ≡ ok tt
        → scan_all z (write_record z md5 config key value timestamp deleted compress t keys).1
          ≡ scan_all z t ++ as_read key value timestamp deleted compress ∷ []
    scan_all-write_record key value timestamp deleted compress t keys {es} k x h =
        scan_all-Holds _ (write_record z md5 config key value timestamp deleted compress t keys).1
          (write_record-Holds key value timestamp deleted compress t keys k x h)
        ∙ ap (λ l. l ++ as_read key value timestamp deleted compress ∷ [])
            (sym (scan_all-Holds es t x))
