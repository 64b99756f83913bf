-- ===== src/Wal/Crash.antt =====
-- `recover` after a crash, which leaves of each file the part that an fsync has put on the disk, and
-- any part of the bytes behind it.
use yellowdb.Prelude.{
  ℕ, zero, suc, ◌-◌, ◌≤◌, ◌<◌, ◌≡◌, refl, sym, ap, ◌∙◌, subst, inl, inr, true, Option, some, List,
  [], ◌∷◌, ◌++◌, All, append_assoc, length, take, leb, arith, Bool-cases,
}
use yellowdb.Config.{Config}
use yellowdb.Text.{Bytes}
use yellowdb.Serializer.Defs.{Zlib}
use yellowdb.Serializer.KeyCache.{KeyCache}
use yellowdb.Wal.Defs.{WalFile, Wal, join, new}
use yellowdb.Wal.Recover.{Entry, recover, read_files, read_all}
use yellowdb.Wal.Replay.{Encodes, nil, cons, fitting, read_all-take, read_all-Encodes}
use yellowdb.Wal.Log.{IsWhole, read_files-one, IsCurrent, IsLog, logged}
use yellowdb.Wal.Settled.{IsDurable, IsPending, IsRecord, IsSettled, IsBounded}

-- what a crash may leave of a file
pub record Survives (f g : WalFile) : Type 0 where
  pub kept : ℕ
  pub synced : f.durable ≤ kept
  pub content : g.content ≡ take kept f.content

pub data Crashed : List WalFile → List WalFile → Type 0 where
  no_file : Crashed [] []
  cut_file :
      {f g : WalFile} {fs gs : List WalFile}
      → Survives f g
      → Crashed fs gs
      → Crashed (f ∷ fs) (g ∷ gs)

take_all : {A : Type 0} (n : ℕ) (xs : List A) → length xs ≤ n → take n xs ≡ xs
take_all zero [] h = refl
take_all zero (x ∷ xs) h = absurd (omega arith)
take_all (suc n) [] h = refl
take_all (suc n) (x ∷ xs) h = ap (◌∷◌ x) (take_all n xs (omega arith))

module _ (z : Zlib) (config : Config) where
  read-durable :
      {fs gs : List WalFile} → Crashed fs gs → All IsDurable fs → read_files z gs ≡ read_files z fs
  unfolding read_files
  read-durable no_file a = refl
  read-durable (cut_file {f} {g} {fs} {gs} s c) (d, a) =
      let e : g.content ≡ f.content =
        s.content ∙ take_all s.kept f.content (let l = s.synced in omega (arith, d, l)) in
      rw (e, read-durable c a) refl

  -- the entries that do not lie whole within the first `n` bytes
  fitting-rest :
      {es : List Entry} {bs : Bytes} (n : ℕ) (x : Encodes z config es bs)
      → (lost : List Entry) × (fitting z config n x ++ lost ≡ es)
  unfolding fitting
  fitting-rest n nil = ([], refl)
  fitting-rest n (cons {e} {b} {es} {bs} p x) = elim (Bool-cases (leb (length b) n)) [
    | inl q ↦ let (lost, h) = fitting-rest (n - length b) x in (lost, rw q (ap (◌∷◌ e) h))
    | inr q ↦ (e ∷ es, rw q refl)
  ]

  read-Survives :
      {f g : WalFile}
      → Survives f g
      → IsWhole z config f.content
      → (lost : List Entry) × (read_all z g.content ++ lost ≡ read_all z f.content)
  read-Survives {f} {g} s (es, x) =
      let (lost, h) = fitting-rest s.kept x in
      (lost, rw (s.content, read_all-take z config s.kept x, h) (sym (read_all-Encodes z config x)))

  -- Only the last file has lost bytes.
  read-last :
      (older : List WalFile) (last : WalFile) {gs : List WalFile}
      → Crashed (older ++ last ∷ []) gs
      → All IsDurable older
      → IsWhole z config last.content
      → (lost : List Entry) × (read_files z gs ++ lost ≡ read_files z (older ++ last ∷ []))
  unfolding read_files
  read-last [] last (cut_file {g = g} s no_file) a w =
      let (lost, h) = read-Survives s w in
      (lost, rw (read_files-one z config g, read_files-one z config last) h)
  read-last (f ∷ older) last (cut_file {g = g} {gs = gs} s c) (d, a) w =
      let (lost, h) = read-last older last c a w in
      let e : g.content ≡ f.content =
        s.content ∙ take_all s.kept f.content (let l = s.synced in omega (arith, d, l)) in
      (
        lost,
        rw e (
            append_assoc (read_all z f.content) (read_files z gs) lost
            ∙ ap (◌++◌ (read_all z f.content)) h),
      )

  older_durable :
      (current : Option ℕ) (older : List WalFile) (last : WalFile)
      → All (IsPending current) (older ++ last ∷ [])
      → current ≡ some last.sequence
      → All (λ (g : WalFile). g.sequence < last.sequence) older
      → All IsDurable older
  older_durable current [] last a e b = tt
  older_durable current (f ∷ older) last (inl d, a) e (l, b) =
      (d, older_durable current older last a e b)
  older_durable current (f ∷ older) last (inr q, a) e (l, b) =
      let i : f.sequence ≡ last.sequence = cc in absurd (omega (arith, i, l))

  last-IsWhole :
      (older : List WalFile) (last : WalFile)
      → All (λ (f : WalFile). IsWhole z config f.content) (older ++ last ∷ [])
      → IsWhole z config last.content
  last-IsWhole [] last (w, _) = w
  last-IsWhole (f ∷ older) last (_, a) = last-IsWhole older last a

  -- A batch has as many entries as records.
  records_lem :
      (bs : List Bytes)
      → All (IsRecord z config) bs
      → (es : List Entry) × Encodes z config es (join bs) × (length es ≡ length bs)
  unfolding join
  records_lem [] a = ([], nil, refl)
  records_lem (b ∷ bs) ((e, p), a) =
      let (es, x, n) = records_lem bs a in (e ∷ es, cons p x, ap suc n)

  length-batch :
      (w : Wal)
      → IsLog z config w
      → IsSettled z config w
      → length (read_all z (join w.batch.entries)) ≡ w.batch.entry_count
  length-batch w v s =
      let (es, x, n) = records_lem w.batch.entries s.records in
      ap length (read_all-Encodes z config x) ∙ n ∙ sym v.counted

  -- what a crash leaves when all bytes of the files are on the disk
  crash_durable :
      (w : Wal) (gs : List WalFile)
      → IsLog z config w
      → IsSettled z config w
      → IsBounded z config w
      → Crashed w.files gs
      → All IsDurable w.files
      → (lost : List Entry) × (read_files z gs ++ lost ≡ logged z config w)
        × (length lost ≤ config.wal_batch_size - 1)
  unfolding logged
  crash_durable w gs v s b c a = (
    read_all z (join w.batch.entries),
    rw (read-durable c a) refl,
    omega (arith, b, length-batch w v s),
  )

  crash_open :
      (w : Wal) (gs : List WalFile)
      → IsLog z config w
      → IsSettled z config w
      → Crashed w.files gs
      → IsCurrent z config w
      → (lost : List Entry) × (read_files z gs ++ lost ≡ logged z config w)
  unfolding logged
  crash_open w gs v s c i =
      let a = subst (All (IsPending w.current_wal_file)) i.all s.pending in
      let whole = subst (All (λ (f : WalFile). IsWhole z config f.content)) i.all v.files in
      let (lost, h) =
        read-last i.older i.last (subst (λ fs. Crashed fs gs) i.all c)
          (older_durable w.current_wal_file i.older i.last a i.named i.before)
          (last-IsWhole i.older i.last whole) in
      (
        lost ++ read_all z (join w.batch.entries),
        rw i.all (
            sym (append_assoc (read_files z gs) lost (read_all z (join w.batch.entries)))
            ∙ ap (λ es. es ++ read_all z (join w.batch.entries)) h),
      )

  -- After a crash recover returns a first part of what was written; with sync_wal it lacks no
  -- more than a batch that is not full.
  pub recover-crash :
      (w : Wal) (gs : List WalFile) (keys : KeyCache)
      → IsLog z config w
      → IsSettled z config w
      → IsBounded z config w
      → Crashed w.files gs
      → (lost : List Entry) × (recover z (new config gs keys) ++ lost ≡ logged z config w)
        × (config.sync_wal ≡ true → length lost ≤ config.wal_batch_size - 1)
  unfolding recover new
  recover-crash w gs keys v s b c = elim (Bool-cases config.sync_wal) [
    | inl q ↦ let (lost, h, l) = crash_durable w gs v s b c (s.synced q) in (lost, h, λ t. l)
    | inr q ↦ elim (Bool-cases w.handle_open) [
      | inl o ↦ let (lost, h) = crash_open w gs v s c (v.current o) in (lost, h, λ t. absurd (cc))
      | inr o ↦ let (lost, h, l) = crash_durable w gs v s b c (s.closed o) in (lost, h, λ t. l)
    ]
  ]
