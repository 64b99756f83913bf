-- ===== src/Wal/Flushes.antt =====
-- `_flush_batch` against the list of the entries that were written.
use yellowdb.Prelude.{
  ◌+◌, ◌≡◌, refl, sym, ap, subst, ◌∙◌, true, false, List, [], ◌∷◌, ◌++◌, All, append-nil,
  append_assoc, length, ◌==◌, arith, if◌then◌else◌, Bool-cases, inl, inr,
}
use yellowdb.Errors.{ok}
use yellowdb.Config.{Config}
use yellowdb.Text.{Bytes}
use yellowdb.Serializer.Defs.{Zlib}
use yellowdb.Wal.Defs.{WalFile, Wal, join, write_handle, sync_handle, flush_batch, get_bytes, clear}
use yellowdb.Wal.Recover.{read_all, read_files}
use yellowdb.Wal.Replay.{nil, read_all-Encodes}
use yellowdb.Wal.Log.{
  IsWhole, IsWhole-nil, IsWhole-append, read_all-append, read_files-append, read_files-one,
  IsCurrent, IsLog, logged, map_last, replace_last, All-append,
}

module _ (z : Zlib) (config : Config) where
  -- The log is kept, and holds the same entries.
  abbrev pub Same : Wal → Wal → Type 0
  Same w w' = IsLog z config w' × (logged z config w' ≡ logged z config w)

  -- the last file when the batch has been written to it
  abbrev pub extended : WalFile → Bytes → WalFile
  extended f bytes = record f { content = f.content ++ bytes }

  write_last :
      (w : Wal) (c : IsCurrent z config w)
      → write_handle w.current_wal_file (get_bytes w.batch) w.files
        ≡ c.older ++ extended c.last (get_bytes w.batch) ∷ []
  unfolding write_handle
  write_last w c =
      rw (c.named, c.all)
        (map_last z config (λ f. extended f (get_bytes w.batch)) c.older c.last c.before)

  pub sync_last :
      (w : Wal) (c : IsCurrent z config w) (g : WalFile)
      → g.sequence ≡ c.last.sequence
      → sync_handle w.current_wal_file (c.older ++ g ∷ [])
        ≡ c.older ++ record g { durable = length g.content } ∷ []
  unfolding sync_handle
  sync_last w c g s =
      rw (c.named, ← s)
        (map_last z config (λ (f : WalFile). record f { durable = length f.content }) c.older g
          (rw s c.before))

  -- a state after the batch went to the last file
  pub drained :
      (w w' : Wal) (c : IsCurrent z config w) (g : WalFile)
      → IsLog z config w
      → g.sequence ≡ c.last.sequence
      → g.content ≡ c.last.content ++ join w.batch.entries
      → w'.files ≡ c.older ++ g ∷ []
      → w'.current_wal_file ≡ w.current_wal_file
      → w'.batch.entries ≡ []
      → w'.batch.entry_count ≡ 0
      → w'.keys ≡ w.keys
      → Same w w'
  unfolding logged join
  drained w w' c g v s e files name b n k =
      let last_whole =
        (All-append z config c.older (c.last ∷ [])
          (subst (All (λ (f : WalFile). IsWhole z config f.content)) c.all v.files)).1.0 in
      let whole =
        subst (IsWhole z config) (sym e)
          (IsWhole-append z config c.last.content (join w.batch.entries) last_whole v.batch) in
      let (f', c', r) = replace_last z config w w' c g v s whole files name in
      let old : read_files z w.files ≡ read_files z c.older ++ read_all z c.last.content =
        rw (c.all, read_files-append z config c.older (c.last ∷ []), read_files-one z config c.last)
          refl in
      let new : read_all z g.content
          ≡ read_all z c.last.content ++ read_all z (join w.batch.entries) =
        ap (read_all z) e
        ∙ read_all-append z config c.last.content (join w.batch.entries) last_whole v.batch in
      let none_left : read_all z (join w'.batch.entries) ≡ [] =
        ap (λ bs. read_all z (join bs)) b ∙ read_all-Encodes z config nil in
      let same : logged z config w' ≡ logged z config w =
        rw (r, none_left, new, old, append-nil)
          (sym (
            append_assoc (read_files z c.older) (read_all z c.last.content)
              (read_all z (join w.batch.entries)))) in
      (
        record {
          files = f';
          batch = rw b (IsWhole-nil z config);
          counted = rw (b, n) refl;
          current = λ h. c';
          idle = λ h. b;
          keys = rw k v.keys;
        },
        same,
      )

  -- The same log with an empty batch, and the file open as it was.
  abbrev pub Flushed : Wal → Wal → Type 0
  Flushed w w' =
      Same w w'
      × (w'.batch.entries ≡ [])
      × (w'.handle_open ≡ w.handle_open)
      × (w'.current_wal_file ≡ w.current_wal_file)

  length_zero : {A : Type 0} (xs : List A) → length xs ≡ 0 → xs ≡ []
  length_zero [] h = refl
  length_zero (x ∷ xs) h = absurd (omega arith)

  -- the result of `_flush_batch` where it writes
  abbrev pub written : List WalFile → Wal → Wal
  written files w = record w {
    files = files;
    current_wal_size = w.current_wal_size + length (get_bytes w.batch);
    batch = clear w.batch;
    batch_size_counter = 0;
  }

  written_lem :
      (w : Wal) (files : List WalFile) (c : IsCurrent z config w) (g : WalFile)
      → IsLog z config w
      → g.sequence ≡ c.last.sequence
      → g.content ≡ c.last.content ++ join w.batch.entries
      → files ≡ c.older ++ g ∷ []
      → Flushed w (written files w)
  unfolding clear
  written_lem w files c g v s e f =
      (drained w (written files w) c g v s e f refl refl refl refl, refl, refl, refl)

  -- the files when `_flush_batch` has written and, with `sync_wal`, synced
  abbrev pub files_written : Wal → List WalFile
  files_written w =
      let files = write_handle w.current_wal_file (get_bytes w.batch) w.files in
      if config.sync_wal then sync_handle w.current_wal_file files else files

  pub flush_batch-written :
      (w : Wal)
      → (w.batch.entry_count == 0) ≡ false
      → w.handle_open ≡ true
      → flush_batch config w ≡ ok (written (files_written w) w)
  unfolding flush_batch
  flush_batch-written w p o = rw (p, o) refl

  -- The batch goes to the open file: no entry is lost, and the batch is empty.
  pub flush_batch_lem :
      (w : Wal) → IsLog z config w → (u : Wal) × (flush_batch config w ≡ ok u) × Flushed w u
  unfolding flush_batch get_bytes
  flush_batch_lem w v = elim (Bool-cases (w.batch.entry_count == 0)) [
    | inl p ↦
        let b : w.batch.entries ≡ [] = length_zero w.batch.entries (ground (arith, v.counted)) in
        (w, rw p refl, ((v, refl), b, refl, refl))
    | inr p ↦ elim (Bool-cases w.handle_open) [
      | inl o ↦
          let c = v.current o in
          let g = extended c.last (get_bytes w.batch) in
          let f = write_last w c in
          let files = files_written w in
          (
            written files w,
            flush_batch-written w p o,
            elim (Bool-cases config.sync_wal) [
              | inl s ↦
                  written_lem w files c (record g { durable = length g.content }) v refl refl
                    (rw s (ap (sync_handle w.current_wal_file) f ∙ sync_last w c g refl))
              | inr s ↦ written_lem w files c g v refl refl (rw s f)
            ],
          )
      | inr o ↦
          let n : w.batch.entry_count ≡ 0 = v.counted ∙ ap length (v.idle o) in
          absurd (ground (arith, n, p))
    ]
  ]
