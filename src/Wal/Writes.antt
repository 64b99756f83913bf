-- ===== src/Wal/Writes.antt =====
-- `write`, `rotate` and `close` against the list of the entries that were written.
use yellowdb.Prelude.{
  ℕ, ◌+◌, ◌≡◌, refl, ap, ◌∙◌, Bool, true, false, ◌||◌, [], ◌∷◌, ◌++◌, leb, if◌then◌else◌,
  if_of_true, if_of_false, Bool-cases, inl, inr,
}
use yellowdb.Errors.{Error, ok, raise, wal_error}
use yellowdb.Config.{Config}
use yellowdb.Text.{Key, Bytes}
use yellowdb.Serializer.Defs.{Zlib}
use yellowdb.Serializer.Write.{serialize_record, record_bytes, serialize_record-eq-record_bytes}
use yellowdb.Wal.Defs.{
  Wal, flush_batch, open_new_wal_file, add_entry, added, end_write, log_record, log_opened, write,
}
use yellowdb.Wal.Recover.{Entry}
use yellowdb.Wal.Log.{IsLog, logged}
use yellowdb.Wal.Flushes.{Same, flush_batch_lem}
use yellowdb.Wal.Refine.{Grown, Same-trans, counted_lem, added_lem, open_new_wal_file_lem}

module _ (z : Zlib) (config : Config) where
  abbrev entry_of : Key → Bytes → ℕ → Bool → Entry
  entry_of key value timestamp deleted = record {
    key = key;
    value = value;
    timestamp = timestamp;
    deleted = deleted;
  }

  Grown-then :
      (u v w : Wal) (e : Entry) → Grown z config u v e → Same z config v w → Grown z config u w e
  Grown-then u v w e a b = (b.0, b.1 ∙ a.1)

  then-Grown :
      (u v w : Wal) (e : Entry) → Same z config u v → Grown z config v w e → Grown z config u w e
  then-Grown u v w e a b = (b.0, b.1 ∙ ap (λ es. es ++ e ∷ []) a.1)

  -- a state and the flush that may follow
  maybe_flush :
      (w : Wal) (b : Bool)
      → IsLog z config w
      → (u : Wal) × ((if b then flush_batch config w else ok w) ≡ ok u) × Same z config w u
  maybe_flush w true v = let (u, e, (s, _, _, _)) = flush_batch_lem z config w v in (u, e, s)
  maybe_flush w false v = (w, refl, (v, refl))

  log_record_lem :
      (w : Wal) (e : Entry) (bytes : Bytes)
      → IsLog z config w
      → w.handle_open ≡ true
      → record_bytes z config e.key e.value e.timestamp e.deleted false ≡ ok bytes
      → (u : Wal) × (log_record z config (ok bytes) w ≡ (ok tt, u)) × Grown z config w u e
  unfolding log_record end_write added
  log_record_lem w e bytes v o h =
      let w1 = added z config bytes w in
      let g = added_lem z config w e bytes v o h in
      let (u, f, s) =
        maybe_flush w1
          ((add_entry bytes w.batch).0 || leb config.wal_sync_interval w1.batch_size_counter) g.0 in
      let u' = record u { entry_count = u.entry_count + 1 } in
      let t = counted_lem z config u (u.entry_count + 1) u.keys s.0 s.0.keys in
      (u', rw f refl, Grown-then w u u' e (Grown-then w w1 u e g s) t)

  -- the log when its file is open
  pub opened :
      (w : Wal)
      → IsLog z config w
      → (u : Wal) × ((if w.handle_open then ok w else open_new_wal_file config w) ≡ ok u)
        × Same z config w u
        × (u.handle_open ≡ true)
  opened w v = elim (Bool-cases w.handle_open) [
    | inl o ↦ (w, if_of_true w.handle_open (ok w) (open_new_wal_file config w) o, (v, refl), o)
    | inr o ↦
        let (u, e, s, _, o') = open_new_wal_file_lem z config w v in
        (u, if_of_false w.handle_open (ok w) (open_new_wal_file config w) o ∙ e, s, o')
  ]

  -- On a log of whole records write of an entry that can be serialized does not raise, whether or
  -- not it opens a file or flushes the batch, and the log then holds one entry more, the last one.
  pub write_lem :
      (w : Wal) (key : Key) (value : Bytes) (timestamp : ℕ) (deleted : Bool) (bytes : Bytes)
      → IsLog z config w
      → record_bytes z config key value timestamp deleted false ≡ ok bytes
      → (u : Wal) × (write z config key value timestamp deleted w ≡ (ok tt, u))
        × IsLog z config u
        × (logged z config u
            ≡ logged z config w
              ++ record { key = key; value = value; timestamp = timestamp; deleted = deleted } ∷ [])
  unfolding write log_opened
  write_lem w key value timestamp deleted bytes v h =
      let (w1, e, s, o) = opened w v in
      let (r, k) =
        serialize_record-eq-record_bytes z config key value timestamp deleted false w1.keys
          s.0.keys in
      let keys = (serialize_record z config key value timestamp deleted false w1.keys).1 in
      let w2 = record w1 { keys = keys } in
      let t = counted_lem z config w1 w1.entry_count keys s.0 k in
      let entry = entry_of key value timestamp deleted in
      let (u, f, g) = log_record_lem w2 entry bytes t.0 o h in
      let grown = then-Grown w w2 u entry (Same-trans z config w w1 w2 s t) g in
      (u, rw (e, r, h) f, grown.0, grown.1)

  -- On a log of whole records write of an entry that cannot be serialized raises WALError, and the
  -- log holds what it held before, also when write has opened a file.
  pub write-raise :
      (w : Wal) (key : Key) (value : Bytes) (timestamp : ℕ) (deleted : Bool) (x : Error)
      → IsLog z config w
      → record_bytes z config key value timestamp deleted false ≡ raise x
      → (u : Wal) × (write z config key value timestamp deleted w ≡ (raise wal_error, u))
        × IsLog z config u
        × (logged z config u ≡ logged z config w)
  unfolding write log_opened log_record
  write-raise w key value timestamp deleted x v h =
      let (w1, e, s, o) = opened w v in
      let (r, k) =
        serialize_record-eq-record_bytes z config key value timestamp deleted false w1.keys
          s.0.keys in
      let keys = (serialize_record z config key value timestamp deleted false w1.keys).1 in
      let w2 = record w1 { keys = keys } in
      let t = Same-trans z config w w1 w2 s (counted_lem z config w1 w1.entry_count keys s.0 k) in
      (w2, rw (e, r, h) refl, t.0, t.1)
