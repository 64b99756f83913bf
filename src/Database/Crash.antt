-- ===== src/Database/Crash.antt =====
-- What is found when a database is opened over the files that a crash has left.
use yellowdb.Prelude.{
  ℕ, ◌-◌, ◌≤◌, ◌<◌, ◌≡◌, refl, sym, ◌∙◌, subst, true, none, List, [], ◌∷◌, ◌++◌, length,
}
use yellowdb.Errors.{ok}
use yellowdb.Text.{Key}
use yellowdb.Serializer.KeyCache.{KeyCache}
use yellowdb.Wal.Defs as Wal
use yellowdb.Wal.Defs.{WalFile, Wal}
use yellowdb.Wal.Recover.{Entry, recover, read_files}
use yellowdb.Wal.Replay.{read_all-Encodes}
use yellowdb.Wal.Log.{IsLog, logged}
use yellowdb.Wal.Follows.{IsSafe}
use yellowdb.Wal.Crash.{Crashed, recover-crash}
use yellowdb.Platform.{Platform}
use yellowdb.Database.State.{Database}
use yellowdb.Database.Read.{get}
use yellowdb.Database.Open.{open_database}
use yellowdb.Database.View.{IsCoherent, get-eq-stored_value}
use yellowdb.Database.Recovery.{latest, IsEncodable, Encodes-IsEncodable, open_database_lem}
use yellowdb.Database.Sessions.{Session}
use yellowdb.Database.Reopen.{session-Follows, append-IsEncodable, read_files-IsEncodable}

module _ (p : Platform) where
  logged-IsEncodable : (w : Wal) → IsLog p.z p.config w → IsEncodable (logged p.z p.config w)
  unfolding logged
  logged-IsEncodable w v =
      let (es, x) = v.batch in
      append-IsEncodable p _ _ (read_files-IsEncodable p w.files v.files)
        (subst IsEncodable (sym (read_all-Encodes p.z p.config x)) (Encodes-IsEncodable p x))

  IsEncodable-front : (es fs : List Entry) → IsEncodable (es ++ fs) → IsEncodable es
  IsEncodable-front [] fs a = tt
  IsEncodable-front (e ∷ es) fs a = (a.0, IsEncodable-front es fs a.1)

  -- Take a database whose log is whole, whose closed log files are on the disk and whose batch is
  -- not full, with at least one concurrent memtable configured, and calls of set and delete that do
  -- not raise, and any calls of get, flush and compact. After a crash that leaves of each log file
  -- what an fsync has put on the disk and any part of the rest, a database that is opened over
  -- these files is coherent, and get of a key of 1 to 1024 code points returns what the entries of
  -- a first part of the log left; with sync_wal that part lacks at most wal_batch_size - 1 of the
  -- entries.
  pub crash_lem :
      (start db : Database p) (es : List Entry) (gs : List WalFile) (keys : KeyCache) (now : ℕ)
      → 0 < p.config.concurrent_memtable_count
      → IsLog p.z p.config start.wal
      → IsSafe p.z p.config start.wal
      → Session p start es db
      → Crashed db.wal.files gs
      → (kept : List Entry) × (lost : List Entry) × (kept ++ lost
          ≡ logged p.z p.config start.wal ++ es)
        × (p.config.sync_wal ≡ true → length lost ≤ p.config.wal_batch_size - 1)
        × IsCoherent p (open_database p gs keys now)
        × ((j : Key)
            → 0 < length j
            → length j ≤ 1024
            → (get p j (open_database p gs keys now)).0 ≡ ok (latest j kept none))
  unfolding recover Wal.new
  crash_lem start db es gs keys now pos v s t x =
      let (l, e, f) = session-Follows p v t in
      let (settled, bounded) = f s in
      let (lost, h, n) = recover-crash p.z p.config db.wal gs keys l settled bounded x in
      let kept = read_files p.z gs in
      let encodable =
        IsEncodable-front kept lost (subst IsEncodable (sym h) (logged-IsEncodable db.wal l)) in
      let (c, g) = open_database_lem p gs keys now kept pos refl encodable in
      let opened' = open_database p gs keys now in
      (
        kept,
        lost,
        h ∙ e,
        n,
        c,
        λ j lo hi. (get-eq-stored_value p j opened' c (unfold open_database in refl) lo hi).0 ∙ g j,
      )
