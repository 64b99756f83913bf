-- ===== src/Wal/Refine.antt =====
-- `_open_new_wal_file` and the entry that `write` adds, against the list of the entries that were
-- written.
use yellowdb.Prelude.{
  ℕ, ◌+◌, ◌≤◌, ◌<◌, ◌≡◌, refl, sym, ap, subst, ◌∙◌, true, false, List, [], ◌∷◌, ◌++◌, All,
  append-nil, append_assoc, length-append, arith, if◌then◌else◌, if_of_true, if_of_false,
  Bool-cases, inl, inr,
}
use yellowdb.Errors.{ok}
use yellowdb.Config.{Config}
use yellowdb.Text.{Bytes}
use yellowdb.Serializer.Defs.{Zlib}
use yellowdb.Serializer.KeyCache.{KeyCache, IsCoherent}
use yellowdb.Serializer.Write.{record_bytes}
use yellowdb.Wal.Defs.{
  WalFile, Wal, join, flush_batch, get_latest_wal_sequence, with_new_file, open_new_wal_file,
  add_entry, added,
}
use yellowdb.Wal.Recover.{Entry, read_all, read_files}
use yellowdb.Wal.Replay.{Encodes, nil, cons, read_all-Encodes}
use yellowdb.Wal.Log.{
  IsWhole, IsWhole-nil, IsWhole-append, read_all-append, read_files-append, read_files-one, IsLog,
  logged, append-All,
}
use yellowdb.Wal.Flushes.{Same, flush_batch_lem}

module _ (z : Zlib) (config : Config) where
  latest_bound :
      (fs : List WalFile) (n : ℕ)
      → get_latest_wal_sequence fs ≤ n
      → All (λ (g : WalFile). g.sequence < n + 1) fs
  unfolding get_latest_wal_sequence
  latest_bound [] n h = tt
  latest_bound (f ∷ fs) n h = (omega arith, latest_bound fs n (omega arith))

  with_new_file_lem :
      (w : Wal) → IsLog z config w → w.batch.entries ≡ [] → Same z config w (with_new_file w)
  unfolding with_new_file logged
  with_new_file_lem w v b =
      let file : WalFile = record {
        sequence = get_latest_wal_sequence w.files + 1;
        content = [];
        durable = 0;
      } in
      let files : read_files z (w.files ++ file ∷ []) ≡ read_files z w.files =
        read_files-append z config w.files (file ∷ [])
        ∙ rw (read_files-one z config file, read_all-Encodes z config nil) (append-nil _) in
      (
        record {
          files = append-All z config w.files (file ∷ []) v.files (IsWhole-nil z config, tt);
          batch = v.batch;
          counted = v.counted;
          current = λ h. record {
            older = w.files;
            last = file;
            all = refl;
            named = refl;
            before = latest_bound w.files (get_latest_wal_sequence w.files) (omega arith);
          };
          idle = λ h. b;
          keys = v.keys;
        },
        ap (λ es. es ++ read_all z (join w.batch.entries)) files,
      )

  pub Same-trans : (u v w : Wal) → Same z config u v → Same z config v w → Same z config u w
  Same-trans u v w a b = (b.0, b.1 ∙ a.1)

  -- The counter and the key cache are no part of the log.
  pub counted_lem :
      (w : Wal) (n : ℕ) (keys : KeyCache)
      → IsLog z config w
      → IsCoherent keys
      → Same z config w (record w { entry_count = n; keys = keys })
  unfolding logged
  counted_lem w n keys v k = (
    record {
      files = v.files;
      batch = v.batch;
      counted = v.counted;
      current = λ o. record {
        older = (v.current o).older;
        last = (v.current o).last;
        all = (v.current o).all;
        named = (v.current o).named;
        before = (v.current o).before;
      };
      idle = v.idle;
      keys = k;
    },
    refl,
  )

  -- the state before the new file
  emptied :
      (w : Wal)
      → IsLog z config w
      → (u : Wal) × ((if w.handle_open then flush_batch config w else ok w) ≡ ok u)
        × Same z config w u
        × (u.batch.entries ≡ [])
  emptied w v = elim (Bool-cases w.handle_open) [
    | inl o ↦
        let (u, e, (s, b, _, _)) = flush_batch_lem z config w v in
        (u, if_of_true w.handle_open (flush_batch config w) (ok w) o ∙ e, s, b)
    | inr o ↦ (w, if_of_false w.handle_open (flush_batch config w) (ok w) o, (v, refl), v.idle o)
  ]

  -- Opening a file more leaves the same log, with an empty batch.
  pub open_new_wal_file_lem :
      (w : Wal)
      → IsLog z config w
      → (u : Wal) × (open_new_wal_file config w ≡ ok u)
        × Same z config w u
        × (u.batch.entries ≡ [])
        × (u.handle_open ≡ true)
  unfolding open_new_wal_file with_new_file
  open_new_wal_file_lem w v =
      let (u, e, s, b) = emptied w v in
      (
        with_new_file u,
        rw e refl,
        Same-trans w u (with_new_file u) s (with_new_file_lem u s.0 b),
        b,
        refl,
      )

  join-append : (bs : List Bytes) (b : Bytes) → join (bs ++ b ∷ []) ≡ join bs ++ b
  unfolding join
  join-append [] b = append-nil b
  join-append (c ∷ bs) b = rw (join-append bs b, append_assoc) refl

  -- one entry more in the log
  abbrev pub Grown : Wal → Wal → Entry → Type 0
  Grown w w' e = IsLog z config w' × (logged z config w' ≡ logged z config w ++ e ∷ [])

  pub added_lem :
      (w : Wal) (e : Entry) (bytes : Bytes)
      → IsLog z config w
      → w.handle_open ≡ true
      → record_bytes z config e.key e.value e.timestamp e.deleted false ≡ ok bytes
      → Grown w (added z config bytes w) e
  unfolding added add_entry logged
  added_lem w e bytes v open' h =
      let one : Encodes z config (e ∷ []) bytes =
        subst (Encodes z config (e ∷ [])) (append-nil bytes) (cons h nil) in
      let joined = join-append w.batch.entries bytes in
      let whole : IsWhole z config (join w.batch.entries ++ bytes) =
        IsWhole-append z config (join w.batch.entries) bytes v.batch (e ∷ [], one) in
      (
        record {
          files = v.files;
          batch = subst (IsWhole z config) (sym joined) whole;
          counted = omega (arith, v.counted, length-append w.batch.entries (bytes ∷ []));
          current = λ o. record {
            older = (v.current o).older;
            last = (v.current o).last;
            all = (v.current o).all;
            named = (v.current o).named;
            before = (v.current o).before;
          };
          idle = λ c. absurd (cc);
          keys = v.keys;
        },
        rw
            (
              joined,
              read_all-append z config (join w.batch.entries) bytes v.batch (e ∷ [], one),
              read_all-Encodes z config one,
              append_assoc,
            )
            refl,
      )
