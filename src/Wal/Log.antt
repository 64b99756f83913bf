-- ===== src/Wal/Log.antt =====
-- The log as the list of the entries that were written to it: those in the files, and those in the
-- batch.
use yellowdb.Prelude.{
  ◌<◌, ◌≡◌, refl, sym, ap, subst, ◌∙◌, true, false, some, List, [], ◌∷◌, ◌++◌, map, All, append-nil,
  append_assoc, length, ◌==◌, arith, if◌then◌else◌,
}
use yellowdb.Config.{Config}
use yellowdb.Text.{Bytes}
use yellowdb.Serializer.Defs.{Zlib}
use yellowdb.Serializer.KeyCache.{IsCoherent}
use yellowdb.Wal.Defs.{WalFile, Wal, join}
use yellowdb.Wal.Recover.{Entry, read_all, read_files}
use yellowdb.Wal.Replay.{Encodes, nil, Encodes-append, read_all-Encodes}

module _ (z : Zlib) (config : Config) where
  -- whole records, one after the other
  abbrev pub IsWhole : Bytes → Type 0
  IsWhole bs = (es : List Entry) × Encodes z config es bs

  pub IsWhole-nil : IsWhole []
  IsWhole-nil = ([], nil)

  pub IsWhole-append : (a b : Bytes) → IsWhole a → IsWhole b → IsWhole (a ++ b)
  IsWhole-append a b (es, x) (fs, y) = (es ++ fs, Encodes-append z config x y)

  pub read_all-append :
      (a b : Bytes) → IsWhole a → IsWhole b → read_all z (a ++ b) ≡ read_all z a ++ read_all z b
  read_all-append a b (es, x) (fs, y) =
      rw (read_all-Encodes z config x, read_all-Encodes z config y)
        (read_all-Encodes z config (Encodes-append z config x y))

  pub read_files-append :
      (fs gs : List WalFile) → read_files z (fs ++ gs) ≡ read_files z fs ++ read_files z gs
  unfolding read_files
  read_files-append [] gs = refl
  read_files-append (f ∷ fs) gs = rw (read_files-append fs gs, append_assoc) refl

  pub read_files-one : (f : WalFile) → read_files z (f ∷ []) ≡ read_all z f.content
  unfolding read_files
  read_files-one f = append-nil (read_all z f.content)

  -- the files before the open one, which has the greatest number
  pub record IsCurrent (w : Wal) : Type 0 where
    pub older : List WalFile
    pub last : WalFile
    pub all : w.files ≡ older ++ last ∷ []
    pub named : w.current_wal_file ≡ some last.sequence
    pub before : All (λ (g : WalFile). g.sequence < last.sequence) older

  -- Files and batch hold whole records, and only the last file is written to.
  pub record IsLog (w : Wal) : Type 0 where
    pub files : All (λ (f : WalFile). IsWhole f.content) w.files
    pub batch : IsWhole (join w.batch.entries)
    pub counted : w.batch.entry_count ≡ length w.batch.entries
    pub current : w.handle_open ≡ true → IsCurrent w
    pub idle : w.handle_open ≡ false → w.batch.entries ≡ []
    pub keys : IsCoherent w.keys

  -- the entries that were written, in order
  unfoldable pub logged : Wal → List Entry
  logged w = read_files z w.files ++ read_all z (join w.batch.entries)

  pub map_last :
      (h : WalFile → WalFile) (fs : List WalFile) (f : WalFile)
      → All (λ (g : WalFile). g.sequence < f.sequence) fs
      → map (λ (g : WalFile). if g.sequence == f.sequence then h g else g) (fs ++ f ∷ [])
        ≡ fs ++ h f ∷ []
  map_last h [] f a = let e : (f.sequence == f.sequence) ≡ true = ground arith in rw e refl
  map_last h (g ∷ fs) f a =
      let e : (g.sequence == f.sequence) ≡ false = ground arith in rw (e, map_last h fs f a.1) refl

  pub All-append :
      (fs gs : List WalFile)
      → All (λ (f : WalFile). IsWhole f.content) (fs ++ gs)
      → All (λ (f : WalFile). IsWhole f.content) fs × All (λ (f : WalFile). IsWhole f.content) gs
  All-append [] gs a = (tt, a)
  All-append (f ∷ fs) gs a = let (b, c) = All-append fs gs a.1 in ((a.0, b), c)

  pub append-All :
      (fs gs : List WalFile)
      → All (λ (f : WalFile). IsWhole f.content) fs
      → All (λ (f : WalFile). IsWhole f.content) gs
      → All (λ (f : WalFile). IsWhole f.content) (fs ++ gs)
  append-All [] gs a b = b
  append-All (f ∷ fs) gs a b = (a.0, append-All fs gs a.1 b)

  -- the log after the last file was replaced by `g`, which has its number
  pub replace_last :
      (w w' : Wal) (c : IsCurrent w) (g : WalFile)
      → IsLog w
      → g.sequence ≡ c.last.sequence
      → IsWhole g.content
      → w'.files ≡ c.older ++ g ∷ []
      → w'.current_wal_file ≡ w.current_wal_file
      → All (λ (f : WalFile). IsWhole f.content) w'.files
        × IsCurrent w'
        × (read_files z w'.files ≡ read_files z c.older ++ read_all z g.content)
  replace_last w w' c g v s whole e n =
      let (a, _) =
        All-append c.older (c.last ∷ [])
          (subst (All (λ (f : WalFile). IsWhole f.content)) c.all v.files) in
      (
        rw e (append-All c.older (g ∷ []) a (whole, tt)),
        record {
          older = c.older;
          last = g;
          all = e;
          named = n ∙ (c.named ∙ ap some (sym s));
          before = rw s c.before;
        },
        rw (e, read_files-append c.older (g ∷ []), read_files-one g) refl,
      )
