-- ===== src/SsTable/Lookup.antt =====
-- `SSTable.get` on the tables that `write_record` writes.
use yellowdb.Prelude.{
  ℕ, zero, suc, ◌<◌, ◌≡◌, refl, ap, ◌∙◌, Bool, true, false, some, List, [], ◌∷◌, ◌++◌, append_assoc,
  length, drop, drop-append_self, arith, inl, inr, sym, Bool-cases, ◌⊎◌,
}
use yellowdb.Errors.{ok, Result-cases}
use yellowdb.Config.{Config}
use yellowdb.Text.{Key, Bytes}
use yellowdb.Text.Order.{key_eq, key_lt, key_eq_refl, key_eq_iff}
use yellowdb.Dict.{lookup}
use yellowdb.Serializer.Defs.{Zlib}
use yellowdb.Serializer.Write.{record_bytes}
use yellowdb.Serializer.RoundTrip.{value_read, read-record_bytes}
use yellowdb.Serializer.Reader.{read_exact}
use yellowdb.Serializer.Read.{read_record_from_file}
use yellowdb.Wal.Recover.{Entry}
use yellowdb.Cache.Defs.{Version}
use yellowdb.Index.Defs.{might_contain, get_offset}
use yellowdb.Index.Lookup.{get_offset_lem}
use yellowdb.Index.Complete.{IsComplete, get_offset-known}
use yellowdb.SsTable.Defs.{SsTable, bytes_of, scan_all, find, get}
use yellowdb.SsTable.Scan.{Holds, nil, cons, as_read, Holds-append, scan_all-Holds}

-- the entry of the list that a version of the key stands for
abbrev pub entry_of : Key → Version → Entry
entry_of key v = record { key = key; value = v.value; timestamp = v.timestamp; deleted = v.deleted }

module _ {A : Type 0} where
  abbrev pub IsAmong : A → List A → Type 0
  IsAmong e es = (before : List A) × (after : List A) × (es ≡ before ++ e ∷ after)

  pub IsAmong-cons : (e d : A) (es : List A) → IsAmong e es → IsAmong e (d ∷ es)
  IsAmong-cons e d es (bs, cs, p) = (d ∷ bs, cs, ap (◌∷◌ d) p)

  IsAmong-append : (e : A) (ds es : List A) → IsAmong e es → IsAmong e (ds ++ es)
  IsAmong-append e ds es (bs, cs, p) = (ds ++ bs, cs, rw (append_assoc, p) refl)

module _ (z : Zlib) (config : Config) where
  -- At the offset a record of the key begins, between whole records.
  pub record Begins (key : Key) (offset : ℕ) (bs : Bytes) : Type 0 where
    pub before : List Entry
    pub after : List Entry
    pub head : Bytes
    pub bytes : Bytes
    pub rest : Bytes
    pub value : Bytes
    pub timestamp : ℕ
    pub deleted : Bool
    pub compress : Bool
    pub split : bs ≡ head ++ (bytes ++ rest)
    pub size : length head ≡ offset
    pub front : Holds z config before head
    pub written : record_bytes z config key value timestamp deleted compress ≡ ok bytes
    pub back : Holds z config after rest

  abbrev pub version_of : Bytes → ℕ → Bool → Bool → Version
  version_of value timestamp deleted compress = record {
    value = value_read z config value deleted compress;
    timestamp = timestamp;
    deleted = deleted;
  }

  module _ (md5 : Bytes → ℕ) where
    -- the first record is the one that is looked for
    find-first :
        (rounds : ℕ) (key : Key) (value : Bytes) (timestamp : ℕ) (deleted compress : Bool)
        {b : Bytes} (rest : Bytes)
        → record_bytes z config key value timestamp deleted compress ≡ ok b
        → 0 < rounds
        → find z md5 config rounds key (b ++ rest)
          ≡ some (version_of value timestamp deleted compress)
    unfolding find
    find-first zero k v t d c rest p h = absurd (omega arith)
    find-first (suc rounds) k v t d c {b} rest p h =
        rw (read-record_bytes z config k v t d c b rest p, find, key_eq_refl k) refl

    find-IsAmong :
        (rounds : ℕ) (key : Key) {es : List Entry} {bs : Bytes} (v : Version)
        → Holds z config es bs
        → find z md5 config rounds key bs ≡ some v
        → IsAmong (entry_of key v) es
    unfolding find read_record_from_file read_exact
    find-IsAmong zero key v x h = absurd (cc)
    find-IsAmong (suc rounds) key v nil h = absurd (cc)
    find-IsAmong (suc rounds) key v (cons k w t d c {b} {es} {bs} p x) h =
        let r = read-record_bytes z config k w t d c b bs p in
        let h' = rw (r, find) at h in
        elim (Bool-cases (key_eq k key)) [
          | inl e ↦
              let s = rw e at h' in
              let same : k ≡ key = (key_eq_iff k key).0 e in
              let this : version_of w t d c ≡ v = ground arith in ([], es, rw (← same, ← this) refl)
          | inr e ↦ elim (Bool-cases (key_lt key k)) [
            | inl l ↦ let s = rw (e, l) at h' in absurd (cc)
            | inr l ↦
                let s = rw (e, l) at h' in
                IsAmong-cons (entry_of key v) (as_read z config k w t d c) es
                  (find-IsAmong rounds key v x s)
          ]
        ]

    -- A table that `write_record` wrote: its file holds whole records, the index and its Bloom
    -- filter have the same keys, and each offset of the index is that of a record of its key.
    pub record IsWritten (t : SsTable) : Type 0 where
      pub entries : List Entry
      pub holds : Holds z config entries (bytes_of t.content)
      pub complete : IsComplete md5 t.index
      pub points :
          (k : Key) (o : ℕ) → lookup k t.index.keys ≡ some o → Begins k o (bytes_of t.content)

    get-find :
        (key : Key) (t : SsTable) (o : ℕ)
        → might_contain md5 key t.index ≡ ok true
        → get_offset md5 key t.index ≡ ok (some o)
        → get z md5 config key t
          ≡ find z md5 config config.block_size key (drop o (bytes_of t.content))
    unfolding get
    get-find key t o m g = rw (m, g, get) refl

    -- the records from an offset that the index gives
    drop-Begins : (k : Key) (o : ℕ) (bs : Bytes) (p : Begins k o bs) → drop o bs ≡ p.bytes ++ p.rest
    drop-Begins k o bs p = rw p.split (drop-append_self o p.head (p.bytes ++ p.rest) p.size)

    Begins-Holds :
        (k : Key) (o : ℕ) (bs : Bytes) (p : Begins k o bs)
        → Holds z config
            (as_read z config k p.value p.timestamp p.deleted p.compress ∷ p.after)
            (p.bytes ++ p.rest)
    Begins-Holds k o bs p = cons k p.value p.timestamp p.deleted p.compress p.written p.back

    -- A key that the index has is found.
    pub get-Begins :
        (key : Key) (o : ℕ) (t : SsTable) {bs : Bytes}
        → IsComplete md5 t.index
        → lookup key t.index.keys ≡ some o
        → bytes_of t.content ≡ bs
        → (p : Begins key o bs) → 0 < config.block_size
        → get z md5 config key t ≡ some (version_of p.value p.timestamp p.deleted p.compress)
    get-Begins key o t {bs} c l same p h =
        get-find key t o (c.known key o l) (get_offset-known md5 key o t.index c l)
        ∙ rw (same, drop-Begins key o bs p)
            (find-first config.block_size key p.value p.timestamp p.deleted p.compress p.rest
              p.written h)

    -- the records from an offset of the binary search stand at the end of the file
    suffix :
        (key : Key) (o : ℕ) (t : SsTable) (w : IsWritten t)
        → (v : Version)
        → find z md5 config config.block_size key (drop o (bytes_of t.content)) ≡ some v
        → (o ≡ 0) ⊎ ((x : Key) × (lookup x t.index.keys ≡ some o))
        → IsAmong (entry_of key v) (scan_all z t)
    suffix key o t w v h (inl e) =
        rw (scan_all-Holds z config w.entries t w.holds)
          (find-IsAmong config.block_size key v w.holds (let h' = rw e at h in h'))
    suffix key o t w v h (inr (x, l)) =
        let p = w.points x o l in
        let h' = rw (drop-Begins x o (bytes_of t.content) p) at h in
        let b = Begins-Holds x o (bytes_of t.content) p in
        let a = find-IsAmong config.block_size key v b h' in
        let whole = Holds-append z config p.front b in
        let whole' = rw (← p.split) at whole in
        rw (scan_all-Holds z config _ t whole') (IsAmong-append (entry_of key v) p.before _ a)

    -- On a table that is new or that write_record wrote, an answer of get stands in what scan_all
    -- returns, as an entry of the key, whichever offset the index gives and whatever the MD5
    -- digests are.
    pub get-IsAmong :
        (key : Key) (t : SsTable) (v : Version)
        → IsWritten t
        → get z md5 config key t ≡ some v
        → IsAmong (entry_of key v) (scan_all z t)
    unfolding get
    get-IsAmong key t v w h = elim (Result-cases (might_contain md5 key t.index)) [
      | inl (e, m) ↦ let h' = rw (m, get) at h in absurd (cc)
      | inr (false, m) ↦ let h' = rw (m, get) at h in absurd (cc)
      | inr (true, m) ↦
          let (o, g, floor) = get_offset_lem t.index key md5 w.complete.valid m in
          suffix key o t w v (sym (get-find key t o m g) ∙ h)
            (elim floor [ inl (e, _) ↦ inl e | inr (x, l, _, _) ↦ inr (x, l) ])
    ]
