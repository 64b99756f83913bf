-- ===== src/Wal/Settled.antt =====
-- What an fsync has put on the disk: in a log that is in use only the file that is written to may
-- have bytes that are not there yet, and only without `sync_wal`.
use yellowdb.Prelude.{
  ℕ, ◌-◌, ◌≤◌, ◌≡◌, refl, sym, ap, ◌∙◌, subst, ◌⊎◌, inl, inr, true, false, Option, none, some, List,
  [], ◌∷◌, ◌++◌, All, length, ◌==◌, arith, if◌then◌else◌, Bool-cases, if_of_true, if_of_false,
}
use yellowdb.Errors.{ok, raise, ok_inj, >>=-eq-ok, wal_error}
use yellowdb.Config.{Config}
use yellowdb.Text.{Bytes}
use yellowdb.Serializer.Defs.{Zlib}
use yellowdb.Serializer.Write.{record_bytes}
use yellowdb.Wal.Defs.{
  WalFile, Wal, write_handle, sync_handle, flush_batch, get_bytes, clear, with_new_file,
  open_new_wal_file, rotate,
}
use yellowdb.Wal.Recover.{Entry}
use yellowdb.Wal.Flushes.{written, files_written, flush_batch-written}

abbrev pub IsDurable : WalFile → Type 0
IsDurable f = f.durable ≡ length f.content

-- on the disk, or the file of the handle
abbrev pub IsPending : Option ℕ → WalFile → Type 0
IsPending current f = IsDurable f ⊎ (current ≡ some f.sequence)

durable-IsPending :
    (current : Option ℕ) (fs : List WalFile) → All IsDurable fs → All (IsPending current) fs
durable-IsPending current [] a = tt
durable-IsPending current (f ∷ fs) (d, a) = (inl d, durable-IsPending current fs a)

write_handle-IsPending :
    (current : Option ℕ) (bytes : Bytes) (fs : List WalFile)
    → All (IsPending current) fs
    → All (IsPending current) (write_handle current bytes fs)
unfolding write_handle
write_handle-IsPending none bytes fs a = a
write_handle-IsPending (some n) bytes [] a = tt
write_handle-IsPending (some n) bytes (f ∷ fs) (d, a) =
    let rest = write_handle-IsPending (some n) bytes fs a in
    elim (Bool-cases (f.sequence == n)) [
      | inl q ↦ let e : f.sequence ≡ n = ground arith in rw q (inr (ap some (sym e)), rest)
      | inr q ↦ rw q (d, rest)
    ]

-- An fsync of the file of the handle leaves nothing that is not on the disk.
sync_handle-IsDurable :
    (current : Option ℕ) (fs : List WalFile)
    → All (IsPending current) fs
    → All IsDurable (sync_handle current fs)
unfolding sync_handle
sync_handle-IsDurable none [] a = tt
sync_handle-IsDurable none (f ∷ fs) (inl d, a) = (d, sync_handle-IsDurable none fs a)
sync_handle-IsDurable none (f ∷ fs) (inr e, a) = absurd (cc)
sync_handle-IsDurable (some n) [] a = tt
sync_handle-IsDurable (some n) (f ∷ fs) (d, a) =
    let rest = sync_handle-IsDurable (some n) fs a in
    elim (Bool-cases (f.sequence == n)) [
      | inl q ↦ rw q (refl, rest)
      | inr q ↦ rw q (elim d [
        | inl x ↦ (x, rest)
        | inr e ↦ let i : n ≡ f.sequence = cc in absurd (ground (arith, i, q))
      ])
    ]

append-IsDurable :
    (fs gs : List WalFile) → All IsDurable fs → All IsDurable gs → All IsDurable (fs ++ gs)
append-IsDurable [] gs a b = b
append-IsDurable (f ∷ fs) gs (d, a) b = (d, append-IsDurable fs gs a b)

module _ (z : Zlib) (config : Config) where
  -- the bytes of one entry
  abbrev pub IsRecord : Bytes → Type 0
  IsRecord b =
      (e : Entry) × (record_bytes z config e.key e.value e.timestamp e.deleted false ≡ ok b)

  pub record IsSettled (w : Wal) : Type 0 where
    pub sized : w.batch.max_size ≡ config.wal_batch_size
    pub records : All IsRecord w.batch.entries
    pub pending : All (IsPending w.current_wal_file) w.files
    pub synced : config.sync_wal ≡ true → All IsDurable w.files
    pub closed : w.handle_open ≡ false → All IsDurable w.files

  -- the batch is not full
  abbrev pub IsBounded : Wal → Type 0
  IsBounded w = w.batch.entry_count ≤ config.wal_batch_size - 1

  written-IsSettled :
      (w : Wal)
      → IsSettled w
      → w.handle_open ≡ true
      → IsSettled (written z config (files_written z config w) w)
  unfolding clear
  written-IsSettled w s o =
      let files = write_handle w.current_wal_file (get_bytes w.batch) w.files in
      let a = write_handle-IsPending w.current_wal_file (get_bytes w.batch) w.files s.pending in
      let d = sync_handle-IsDurable w.current_wal_file files a in
      elim (Bool-cases config.sync_wal) [
        | inl q ↦ record {
          sized = s.sized;
          records = tt;
          pending = rw q (durable-IsPending w.current_wal_file _ d);
          synced = λ t. rw q d;
          closed = λ c. absurd (cc);
        }
        | inr q ↦ record {
          sized = s.sized;
          records = tt;
          pending = rw q a;
          synced = λ t. absurd (cc);
          closed = λ c. absurd (cc);
        }
      ]

  -- what a flush of the batch leaves
  record IsFlushed (w u : Wal) : Type 0 where
    settled : IsSettled u
    nothing : u.batch.entry_count ≡ 0
    open' : u.handle_open ≡ w.handle_open
    current : u.current_wal_file ≡ w.current_wal_file

  flush_batch-idle : (w : Wal) → w.batch.entry_count ≡ 0 → flush_batch config w ≡ ok w
  unfolding flush_batch
  flush_batch-idle w n = let q : (w.batch.entry_count == 0) ≡ true = ground (arith, n) in rw q refl

  flush_batch-IsFlushed : (w u : Wal) → IsSettled w → flush_batch config w ≡ ok u → IsFlushed w u
  unfolding flush_batch clear
  flush_batch-IsFlushed w u s h = elim (Bool-cases (w.batch.entry_count == 0)) [
    | inl q ↦
        let n : w.batch.entry_count ≡ 0 = ground arith in
        subst (IsFlushed w) (ok_inj (sym (flush_batch-idle w n) ∙ h))
          (record { settled = s; nothing = n; open' = refl; current = refl })
    | inr q ↦ elim (Bool-cases w.handle_open) [
      | inl o ↦
          subst (IsFlushed w) (ok_inj (sym (flush_batch-written z config w q o) ∙ h)) (record {
            settled = written-IsSettled w s o;
            nothing = refl;
            open' = refl;
            current = refl;
          })
      | inr o ↦ absurd (let t : raise wal_error ≡ ok u = rw (q, o) at h in cc)
    ]
  ]

  pub flush_batch-IsSettled :
      (w u : Wal)
      → IsSettled w
      → flush_batch config w ≡ ok u
      → IsSettled u × (u.batch.entry_count ≡ 0)
  flush_batch-IsSettled w u s h = let f = flush_batch-IsFlushed w u s h in (f.settled, f.nothing)

  with_new_file-IsSettled :
      (w : Wal)
      → All IsDurable w.files
      → w.batch.max_size ≡ config.wal_batch_size
      → All IsRecord w.batch.entries
      → IsSettled (with_new_file w)
  unfolding with_new_file
  with_new_file-IsSettled w a m r =
      let d : All IsDurable (with_new_file w).files = append-IsDurable w.files _ a (refl, tt) in
      record {
        sized = m;
        records = r;
        pending = durable-IsPending _ _ d;
        synced = λ t. d;
        closed = λ c. d;
      }

  -- a new file behind files that are on the disk
  pub open_closed :
      (w u : Wal)
      → IsSettled w
      → w.handle_open ≡ false
      → open_new_wal_file config w ≡ ok u
      → IsSettled u × (u.batch.entry_count ≡ w.batch.entry_count)
  unfolding open_new_wal_file with_new_file
  open_closed w u s c h =
      subst (λ x. IsSettled x × (x.batch.entry_count ≡ w.batch.entry_count))
        (ok_inj (sym (rw c refl) ∙ h))
        (with_new_file-IsSettled w (s.closed c) s.sized s.records, refl)

  open_synced :
      (w u : Wal)
      → All IsDurable w.files
      → IsSettled w
      → w.batch.entry_count ≡ 0
      → open_new_wal_file config w ≡ ok u
      → IsSettled u × (u.batch.entry_count ≡ 0)
  unfolding open_new_wal_file with_new_file
  open_synced w u a s n h =
      let (x, e, g) = >>=-eq-ok (if w.handle_open then flush_batch config w else ok w) _ h in
      let same : x ≡ w = elim (Bool-cases w.handle_open) [
        | inl o ↦ ok_inj (
            sym e ∙ if_of_true w.handle_open (flush_batch config w) (ok w) o ∙ flush_batch-idle w n)
        | inr o ↦ ok_inj (sym e ∙ if_of_false w.handle_open (flush_batch config w) (ok w) o)
      ] in
      subst (λ y. IsSettled y × (y.batch.entry_count ≡ 0)) (ap with_new_file (sym same) ∙ ok_inj g)
        (with_new_file-IsSettled w a s.sized s.records, n)

  -- the state after the fsync of `rotate` and `close`
  abbrev pub fsynced : Option ℕ → Wal → Wal
  fsynced current u = if u.handle_open then record u { files = sync_handle current u.files } else u

  fsynced-IsSettled :
      (w u : Wal)
      → IsFlushed w u
      → All IsDurable (fsynced w.current_wal_file u).files
        × IsSettled (fsynced w.current_wal_file u)
        × ((fsynced w.current_wal_file u).batch.entry_count ≡ 0)
  fsynced-IsSettled w u f =
      let s = f.settled in
      let v = record u { files = sync_handle w.current_wal_file u.files } in
      let d : All IsDurable v.files =
        subst (λ c. All IsDurable (sync_handle c u.files)) f.current
          (sync_handle-IsDurable u.current_wal_file u.files s.pending) in
      elim (Bool-cases u.handle_open) [
        | inl o ↦
            subst (λ x. All IsDurable x.files × IsSettled x × (x.batch.entry_count ≡ 0))
              (sym (if_of_true u.handle_open v u o))
              (
                d,
                record {
                  sized = s.sized;
                  records = s.records;
                  pending = durable-IsPending _ _ d;
                  synced = λ t. d;
                  closed = λ t. d;
                },
                f.nothing,
              )
        | inr o ↦
            subst (λ x. All IsDurable x.files × IsSettled x × (x.batch.entry_count ≡ 0))
              (sym (if_of_false u.handle_open v u o)) (s.closed o, s, f.nothing)
      ]

  pub rotate-IsSettled :
      (w u : Wal) (old : Option ℕ)
      → IsSettled w
      → rotate config w ≡ ok (old, u)
      → IsSettled u × (u.batch.entry_count ≡ 0)
  unfolding rotate
  rotate-IsSettled w u old s h =
      let (w1, e1, h1) = >>=-eq-ok (flush_batch config w) _ h in
      let (a, s2, n) = fsynced-IsSettled w w1 (flush_batch-IsFlushed w w1 s e1) in
      let (w3, e3, h3) =
        >>=-eq-ok (open_new_wal_file config (fsynced w.current_wal_file w1)) _ h1 in
      let q : w3 ≡ u = ap (λ (r : Option ℕ × Wal). r.1) (ok_inj h3) in
      subst (λ x. IsSettled x × (x.batch.entry_count ≡ 0)) q
        (open_synced (fsynced w.current_wal_file w1) w3 a s2 n e3)
