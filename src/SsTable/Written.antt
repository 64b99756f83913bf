-- ===== src/SsTable/Written.antt =====
-- `SSTable.get` after `write_record`.
use yellowdb.Prelude.{
  ℕ, ◌<◌, ◌≡◌, refl, ap, ◌∙◌, Bool, true, false, none, some, List, [], ◌∷◌, ◌++◌, append-nil,
  append_assoc, length, arith, inl, inr, sym, Bool-cases, ◌%◌, ◌==◌, if◌then◌else◌,
}
use yellowdb.Errors.{ok}
use yellowdb.Config.{Config}
use yellowdb.Text.{Key, Bytes}
use yellowdb.Text.Order.{key_eq, key_eq_refl, key_eq_iff}
use yellowdb.Dict.{lookup, lookup-insert}
use yellowdb.Serializer.Defs.{Zlib}
use yellowdb.Serializer.KeyCache.{KeyCache, IsCoherent}
use yellowdb.Serializer.Write.{record_bytes, serialize_record, serialize_record-eq-record_bytes}
use yellowdb.Wal.Recover.{Entry}
use yellowdb.Index.Defs
use yellowdb.Index.Defs.{SparseIndex, add_key, might_contain, get_offset}
use yellowdb.Index.Laws.{add_key-enter}
use yellowdb.Index.Complete.{IsComplete, add_key-IsComplete, new-IsComplete}
use yellowdb.SsTable.Defs.{new, SsTable, bytes_of, sample, sparse_interval, write_record, get}
use yellowdb.SsTable.Scan.{Holds, nil, cons, as_read, Holds-append, append_record_inv}
use yellowdb.SsTable.Lookup.{Begins, IsWritten, get-Begins, version_of}

module _ (z : Zlib) (config : Config) where
  Begins-append :
      (k : Key) (o : ℕ) {bs b : Bytes} {es : List Entry}
      → Begins z config k o bs
      → Holds z config es b
      → Begins z config k o (bs ++ b)
  Begins-append k o {bs} {b} {es} p x = record {
    before = p.before;
    after = p.after ++ es;
    head = p.head;
    bytes = p.bytes;
    rest = p.rest ++ b;
    value = p.value;
    timestamp = p.timestamp;
    deleted = p.deleted;
    compress = p.compress;
    split = rw (p.split, append_assoc) (rw append_assoc refl);
    size = p.size;
    front = p.front;
    written = p.written;
    back = Holds-append z config p.back x;
  }

  abbrev Begins-last :
      (key : Key) (value : Bytes) (timestamp : ℕ) (deleted compress : Bool) {es : List Entry}
      {bs b : Bytes}
      → Holds z config es bs
      → record_bytes z config key value timestamp deleted compress ≡ ok b
      → Begins z config key (length bs) (bs ++ b)
  Begins-last key value timestamp deleted compress {es} {bs} {b} x p = record {
    before = es;
    after = [];
    head = bs;
    bytes = b;
    rest = [];
    value = value;
    timestamp = timestamp;
    deleted = deleted;
    compress = compress;
    split = rw append-nil refl;
    size = refl;
    front = x;
    written = p;
    back = nil;
  }

  module _ (md5 : Bytes → ℕ) where
    -- the record goes behind those of the file, and the index is sampled
    abbrev pub IsSampled : Key → SsTable → Type 0
    IsSampled key t = (t.entry_count % sparse_interval config key == 0) ≡ true

    sample-off :
        (key : Key) (o : ℕ) (t : SsTable)
        → (t.entry_count % sparse_interval config key == 0) ≡ false
        → (sample z md5 config key o t).1 ≡ t.index
    unfolding sample
    sample-off key o t h = rw (h, sample) refl

    sample-on :
        (key : Key) (o : ℕ) (t : SsTable)
        → (t.entry_count % sparse_interval config key == 0) ≡ true
        → sample z md5 config key o t ≡ add_key md5 key o t.index
    unfolding sample
    sample-on key o t h = rw (h, sample) refl

    add_key-lookup :
        (key k : Key) (o : ℕ) (ix : SparseIndex)
        → lookup k (add_key md5 key o ix).1.keys
          ≡ (if key_eq key k then some o else lookup k ix.keys)
    add_key-lookup key k o ix =
        ap (lookup k) (add_key-enter md5 key o ix).0 ∙ lookup-insert key k o ix.keys

    -- A new table is one, where no file of its name exists.
    pub new-IsWritten :
        (level sequence : ℕ) → IsWritten z config md5 (new config level sequence none)
    unfolding new Defs.new bytes_of lookup
    new-IsWritten level sequence = record {
      entries = [];
      holds = nil;
      complete = new-IsComplete md5 config;
      points = λ k o h. absurd (cc);
    }

    module _ (key : Key) (value : Bytes) (timestamp : ℕ) (deleted compress : Bool) (t : SsTable)
        (keys : KeyCache) where
      abbrev after : SsTable
      after = (write_record z md5 config key value timestamp deleted compress t keys).1

      abbrev offset : ℕ
      offset = length (bytes_of t.content)

      write_record_inv :
          IsCoherent keys
          → (write_record z md5 config key value timestamp deleted compress t keys).0 ≡ ok tt
          → (b : Bytes) × (record_bytes z config key value timestamp deleted compress ≡ ok b)
            × ((sample z md5 config key offset t).0 ≡ ok tt)
            × (bytes_of after.content ≡ bytes_of t.content ++ b)
            × (after.index ≡ (sample z md5 config key offset t).1)
      unfolding write_record
      write_record_inv k h =
          let (same, _) =
            serialize_record-eq-record_bytes z config key value timestamp deleted compress keys k in
          let r = (serialize_record z config key value timestamp deleted compress keys).0 in
          let (b, q, s, c, i) = append_record_inv z config md5 key r t h in
          (b, sym same ∙ q, s, c, i)

      -- a sampled key
      index_on :
          IsWritten z config md5 t
          → IsSampled key t
          → (sample z md5 config key offset t).0 ≡ ok tt
          → after.index ≡ (sample z md5 config key offset t).1
          → IsComplete md5 after.index
            × ((k : Key)
                → lookup k after.index.keys
                  ≡ (if key_eq key k then some offset else lookup k t.index.keys))
      index_on w on s i =
          let e = sample-on key offset t on in
          let j : after.index ≡ (add_key md5 key offset t.index).1 = i ∙ ap (λ r. r.1) e in
          rw j (
            add_key-IsComplete md5 key offset t.index w.complete (sym (ap (λ r. r.0) e) ∙ s),
            λ k. add_key-lookup key k offset t.index,
          )

      -- A write_record that does not raise keeps the table one that write_record wrote.
      pub write_record-IsWritten :
          IsCoherent keys
          → IsWritten z config md5 t
          → (write_record z md5 config key value timestamp deleted compress t keys).0 ≡ ok tt
          → IsWritten z config md5 after
      write_record-IsWritten k w h =
          let (b, p, s, c, i) = write_record_inv k h in
          let one = cons key value timestamp deleted compress p nil in
          let one' = rw append-nil at one in
          let holds' = Holds-append z config w.holds one' in
          elim (Bool-cases (t.entry_count % sparse_interval config key == 0)) [
            | inl on ↦
                let (complete', look) = index_on w on s i in
                record {
                  entries = w.entries ++ as_read z config key value timestamp deleted compress ∷ [];
                  holds = rw c holds';
                  complete = complete';
                  points = λ j o l. rw c (elim (Bool-cases (key_eq key j)) [
                    | inl e ↦
                        let same : key ≡ j = (key_eq_iff key j).0 e in
                        let l' = look j in
                        let o' : offset ≡ o = ground arith in
                        rw (← same, ← o')
                          (Begins-last key value timestamp deleted compress w.holds p)
                    | inr e ↦
                        let l' = look j in
                        let old : lookup j t.index.keys ≡ some o = ground arith in
                        Begins-append j o (w.points j o old) one'
                  ]);
                }
            | inr off ↦
                let same = i ∙ sample-off key offset t off in
                record {
                  entries = w.entries ++ as_read z config key value timestamp deleted compress ∷ [];
                  holds = rw c holds';
                  complete = rw same w.complete;
                  points = λ j o l. rw c (
                      Begins-append j o (w.points j o (ap (λ x. lookup j x.keys) (sym same) ∙ l))
                        one');
                }
          ]

      -- With a coherent key cache and a positive block size, after a call of write_record that does
      -- not raise, for a key that it gives to the index, on a table that is new or that
      -- write_record wrote, get of the key returns the new record, as a reader gets it.
      pub get-write_record :
          IsCoherent keys
          → IsWritten z config md5 t
          → IsSampled key t
          → 0 < config.block_size
          → (write_record z md5 config key value timestamp deleted compress t keys).0 ≡ ok tt
          → get z md5 config key after ≡ some (version_of z config value timestamp deleted compress)
      get-write_record k w on pos h =
          let (b, p, s, c, i) = write_record_inv k h in
          let (complete', look) = index_on w on s i in
          let begins = Begins-last key value timestamp deleted compress w.holds p in
          get-Begins z config md5 key offset after complete' (look key ∙ rw (key_eq_refl key) refl)
            c begins pos
