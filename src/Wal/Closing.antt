-- ===== src/Wal/Closing.antt =====
-- `rotate` and `close` against the list of the entries that were written.
use yellowdb.Prelude.{
  ◌≡◌, refl, sym, ap, subst, ◌∙◌, true, false, [], ◌++◌, append-nil, length, if◌then◌else◌,
  if_of_true, if_of_false, Bool-cases, inl, inr,
}
use yellowdb.Errors.{ok}
use yellowdb.Config.{Config}
use yellowdb.Serializer.Defs.{Zlib}
use yellowdb.Wal.Defs.{Wal, join, sync_handle, rotate, close, new}
use yellowdb.Wal.Recover.{read_files, recover}
use yellowdb.Wal.Replay.{nil, read_all-Encodes}
use yellowdb.Wal.Log.{IsWhole-nil, IsLog, logged}
use yellowdb.Wal.Flushes.{Same, sync_last, drained, flush_batch_lem}
use yellowdb.Wal.Refine.{open_new_wal_file_lem}

module _ (z : Zlib) (config : Config) where
  abbrev synced : Wal → Wal
  synced w = record w { files = sync_handle w.current_wal_file w.files }

  synced_lem :
      (w : Wal)
      → IsLog z config w
      → w.handle_open ≡ true
      → w.batch.entries ≡ []
      → Same z config w (synced w)
  unfolding join
  synced_lem w v o b =
      let c = v.current o in
      let g = record c.last { durable = length c.last.content } in
      let content : c.last.content ≡ c.last.content ++ join w.batch.entries =
        rw b (sym (append-nil c.last.content)) in
      let files = ap (sync_handle w.current_wal_file) c.all ∙ sync_last z config w c c.last refl in
      drained z config w (synced w) c g v refl content files refl b (v.counted ∙ ap length b) refl

  -- the state after a flush, synced where the file is open
  end_synced :
      (w u : Wal)
      → IsLog z config u
      → u.batch.entries ≡ []
      → u.current_wal_file ≡ w.current_wal_file
      → Same z config u
          (if u.handle_open then record u { files = sync_handle w.current_wal_file u.files } else u)
  end_synced w u v b n =
      let w_synced = record u { files = sync_handle w.current_wal_file u.files } in
      elim (Bool-cases u.handle_open) [
        | inl o ↦ subst (Same z config u) (sym (if_of_true u.handle_open w_synced u o)) (
            subst (λ c. Same z config u (record u { files = sync_handle c u.files })) n
              (synced_lem u v o b))
        | inr o ↦ subst (Same z config u) (sym (if_of_false u.handle_open w_synced u o)) (v, refl)
      ]

  -- Rotating a log of whole records does not raise, empties the batch, and loses no entry.
  pub rotate_lem :
      (w : Wal)
      → IsLog z config w
      → (u : Wal) × (rotate config w ≡ ok (w.current_wal_file, u))
        × IsLog z config u
        × (logged z config u ≡ logged z config w)
        × (u.batch.entries ≡ [])
  unfolding rotate
  rotate_lem w v =
      let (w1, e, (s, b, o, n)) = flush_batch_lem z config w v in
      let w2 =
        if w1.handle_open
        then record w1 { files = sync_handle w.current_wal_file w1.files }
        else w1 in
      let t = end_synced w w1 s.0 b n in
      let (u, f, r, b', _) = open_new_wal_file_lem z config w2 t.0 in
      (u, rw (e, f) refl, r.0, r.1 ∙ (t.1 ∙ s.1), b')

  closed_file :
      (w : Wal)
      → IsLog z config w
      → w.batch.entries ≡ []
      → Same z config w (record w { handle_open = false })
  unfolding logged
  closed_file w v b = (
    record {
      files = v.files;
      batch = v.batch;
      counted = v.counted;
      current = λ o. absurd (cc);
      idle = λ o. b;
      keys = v.keys;
    },
    refl,
  )

  recover-flushed : (w : Wal) → w.batch.entries ≡ [] → recover z w ≡ logged z config w
  unfolding recover logged join
  recover-flushed w b =
      rw b (rw (read_all-Encodes z config nil) (sym (append-nil (read_files z w.files))))

  -- On a log of whole records close does not raise, keeps the log, and recover then returns all
  -- entries that were written, in order, those of the batch included.
  pub close_lem :
      (w : Wal)
      → IsLog z config w
      → (u : Wal) × (close config w ≡ ok u)
        × IsLog z config u
        × (logged z config u ≡ logged z config w)
        × (recover z u ≡ logged z config w)
  unfolding close
  close_lem w v =
      let (w1, e, (s, b, _, _)) = flush_batch_lem z config w v in
      elim (Bool-cases w1.handle_open) [
        | inl o ↦
            let t = synced_lem w1 s.0 o b in
            let c = closed_file (synced w1) t.0 b in
            let same = c.1 ∙ (t.1 ∙ s.1) in
            let u = record (synced w1) { handle_open = false } in
            (u, rw (e, o) refl, c.0, same, recover-flushed u b ∙ same)
        | inr o ↦ (w1, rw (e, o) refl, s.0, s.1, recover-flushed w1 b ∙ s.1)
      ]

  -- A log that is opened over the files of another one holds what recover returns.
  pub new-IsLog :
      (w : Wal)
      → IsLog z config w
      → IsLog z config (new config w.files w.keys)
        × (logged z config (new config w.files w.keys) ≡ recover z w)
  unfolding new logged recover join
  new-IsLog w v = (
    record {
      files = v.files;
      batch = IsWhole-nil z config;
      counted = refl;
      current = λ o. absurd (cc);
      idle = λ o. refl;
      keys = v.keys;
    },
    rw (read_all-Encodes z config nil) (append-nil (read_files z w.files)),
  )
