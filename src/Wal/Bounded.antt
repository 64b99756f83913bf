-- ===== src/Wal/Bounded.antt =====
-- `write` against what is on the disk and what is still in the batch.
use yellowdb.Prelude.{
  ℕ, ◌+◌, ◌≡◌, refl, sym, ap, ◌∙◌, subst, inl, inr, Bool, true, false, ◌||◌, List, [], ◌∷◌, ◌++◌,
  All, leb, arith, if◌then◌else◌, if_of_true, if_of_false, Bool-cases,
}
use yellowdb.Errors.{Result, ok, raise, ok_inj}
use yellowdb.Config.{Config}
use yellowdb.Text.{Bytes}
use yellowdb.Serializer.Defs.{Zlib}
use yellowdb.Serializer.KeyCache.{KeyCache}
use yellowdb.Serializer.Write.{serialize_record, record_bytes, serialize_record-eq-record_bytes}
use yellowdb.Wal.Defs.{
  Wal, flush_batch, open_new_wal_file, add_entry, added, end_write, log_record, log_opened, write,
}
use yellowdb.Wal.Recover.{Entry}
use yellowdb.Wal.Log.{IsLog}
use yellowdb.Wal.Writes.{opened}
use yellowdb.Wal.Settled.{IsRecord, IsSettled, IsBounded, flush_batch-IsSettled, open_closed}

module _ (z : Zlib) (config : Config) where
  end_write_inv :
      (w u : Wal) (r : Result Wal)
      → end_write z config w r ≡ (ok tt, u)
      → (x : Wal) × (r ≡ ok x) × (record x { entry_count = x.entry_count + 1 } ≡ u)
  unfolding end_write
  end_write_inv w u (raise e) h = absurd (cc)
  end_write_inv w u (ok x) h = (x, refl, ap (λ (r : Result (Unit {0}) × Wal). r.1) h)

  -- The counter and the key cache have nothing to do with the disk.
  pub counted-IsSettled :
      (w : Wal) (n : ℕ) (keys : KeyCache)
      → IsSettled z config w
      → IsSettled z config (record w { entry_count = n; keys = keys })
  counted-IsSettled w n keys s = record {
    sized = s.sized;
    records = s.records;
    pending = s.pending;
    synced = s.synced;
    closed = s.closed;
  }

  append_records :
      (bs : List Bytes) (b : Bytes)
      → All (IsRecord z config) bs
      → IsRecord z config b
      → All (IsRecord z config) (bs ++ b ∷ [])
  append_records [] b a r = (r, tt)
  append_records (c ∷ bs) b a r = (a.0, append_records bs b a.1 r)

  added-IsSettled :
      (w : Wal) (bytes : Bytes)
      → IsSettled z config w
      → IsRecord z config bytes
      → IsSettled z config (added z config bytes w)
  unfolding added add_entry
  added-IsSettled w bytes s r = record {
    sized = s.sized;
    records = append_records w.batch.entries bytes s.records r;
    pending = s.pending;
    synced = s.synced;
    closed = s.closed;
  }

  -- A batch that is not full after an entry was added is below its size.
  added-IsBounded :
      (w : Wal) (bytes : Bytes)
      → IsSettled z config w
      → (add_entry bytes w.batch).0 ≡ false
      → IsBounded z config (added z config bytes w)
  unfolding added add_entry
  added-IsBounded w bytes s h = ground (arith, s.sized)

  or_false : (a b : Bool) → (a || b) ≡ false → a ≡ false
  or_false true b h = h
  or_false false b h = refl

  log_record-IsSettled :
      (w u : Wal) (bytes : Bytes)
      → IsSettled z config w
      → IsRecord z config bytes
      → log_record z config (ok bytes) w ≡ (ok tt, u)
      → IsSettled z config u × IsBounded z config u
  unfolding log_record
  log_record-IsSettled w u bytes s r h =
      let w' = added z config bytes w in
      let a = added-IsSettled w bytes s r in
      let full = (add_entry bytes w.batch).0 in
      let due = leb config.wal_sync_interval w'.batch_size_counter in
      let (x, e, q) = end_write_inv w' u _ h in
      let end : IsSettled z config x × IsBounded z config x = elim (Bool-cases (full || due)) [
        | inl t ↦
            let (s', n) =
              flush_batch-IsSettled z config w' x a
                (sym (if_of_true (full || due) (flush_batch config w') (ok w') t) ∙ e) in
            (s', omega (arith, n))
        | inr t ↦
            subst (λ y. IsSettled z config y × IsBounded z config y)
              (ok_inj (sym (if_of_false (full || due) (flush_batch config w') (ok w') t) ∙ e))
              (a, added-IsBounded w bytes s (or_false full due t))
      ] in
      subst (λ y. IsSettled z config y × IsBounded z config y) q
        (counted-IsSettled x (x.entry_count + 1) x.keys end.0, end.1)

  opened-IsSettled :
      (w w1 : Wal)
      → IsSettled z config w
      → (if w.handle_open then ok w else open_new_wal_file config w) ≡ ok w1
      → IsSettled z config w1
  opened-IsSettled w w1 s e = elim (Bool-cases w.handle_open) [
    | inl o ↦
        subst (IsSettled z config)
          (ok_inj (sym (if_of_true w.handle_open (ok w) (open_new_wal_file config w) o) ∙ e)) s
    | inr o ↦
        (open_closed z config w w1 s o
          (sym (if_of_false w.handle_open (ok w) (open_new_wal_file config w) o) ∙ e)).0
  ]

  pub write-IsSettled :
      (w u : Wal) (e : Entry) (bytes : Bytes)
      → IsLog z config w
      → IsSettled z config w
      → record_bytes z config e.key e.value e.timestamp e.deleted false ≡ ok bytes
      → write z config e.key e.value e.timestamp e.deleted w ≡ (ok tt, u)
      → IsSettled z config u × IsBounded z config u
  unfolding write log_opened
  write-IsSettled w u e bytes v s b h =
      let (w1, o, same, _) = opened z config w v in
      let (r, k) =
        serialize_record-eq-record_bytes z config e.key e.value e.timestamp e.deleted false w1.keys
          same.0.keys in
      let keys = (serialize_record z config e.key e.value e.timestamp e.deleted false w1.keys).1 in
      let w2 = record w1 { keys = keys } in
      let s2 = counted-IsSettled w1 w1.entry_count keys (opened-IsSettled w w1 s o) in
      log_record-IsSettled w2 u bytes s2 (e, b) (rw (o, r, b) at h)
