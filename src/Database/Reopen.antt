-- ===== src/Database/Reopen.antt =====
-- The log of a session, and what is found when its database is closed and opened again.
use yellowdb.Prelude.{
  ℕ, ◌≤◌, ◌<◌, ◌≡◌, refl, sym, ap, ◌∙◌, subst, true, false, none, List, [], ◌∷◌, ◌++◌, All, length,
  append_assoc, append-nil,
}
use yellowdb.Errors.{Result, ok}
use yellowdb.Text.{Key}
use yellowdb.Actions.{>>=-inv}
use yellowdb.Serializer.KeyCache.{KeyCache}
use yellowdb.Wal.Defs as Wal
use yellowdb.Wal.Defs.{WalFile, Wal}
use yellowdb.Wal.Recover.{Entry, recover, read_files, read_all}
use yellowdb.Wal.Log.{IsLog, logged}
use yellowdb.Wal.Follows.{Follows, IsSafe}
use yellowdb.Wal.Closing.{close_lem}
use yellowdb.Platform.{Platform}
use yellowdb.Database.State.{Database, check_open}
use yellowdb.Database.Flush.{flush_source}
use yellowdb.Database.Read.{get}
use yellowdb.Database.Open.{open_database}
use yellowdb.Database.Close.{close, close_wal, end_close}
use yellowdb.Database.Unlogged.{get-wal}
use yellowdb.Database.Logging.{flush_source-Logs}
use yellowdb.Wal.Replay.{read_all-Encodes}
use yellowdb.Wal.Log.{IsWhole}
use yellowdb.Database.View.{IsCoherent, get-eq-stored_value}
use yellowdb.Database.Recovery.{
  latest, latest-append, IsEncodable, Encodes-IsEncodable, open_database_lem,
}
use yellowdb.Database.Sessions.{
  written, stamp, Session, opened, after_set, after_delete, after_get, after_flush, after_compact,
  check_open-Logs, set_lem, delete_lem, flush-Logs, compact-Logs,
}

module _ (p : Platform) where
  -- what the calls of a session leave of the log
  pub session-Follows :
      {start db : Database p} {es : List Entry}
      → IsLog p.z p.config start.wal
      → Session p start es db
      → IsLog p.z p.config db.wal
        × (logged p.z p.config db.wal ≡ logged p.z p.config start.wal ++ es)
        × (IsSafe p.z p.config start.wal → IsSafe p.z p.config db.wal)
  session-Follows v opened = (v, sym (append-nil _), λ s. s)
  session-Follows v (after_set {es = es} {db = u} {db' = db} key value clock s h) =
      let (w, e, t) = session-Follows v s in
      let ((l, g), t') = set_lem p key value clock u db w h in
      (
        l,
        g ∙ ap (λ xs. xs ++ written key value false (stamp p clock u) ∷ []) e ∙ append_assoc _ es _,
        λ x. t' (t x),
      )
  session-Follows v (after_delete {es = es} {db = u} {db' = db} key clock s h) =
      let (w, e, t) = session-Follows v s in
      let ((l, g), t') = delete_lem p key clock u db w h in
      (
        l,
        g ∙ ap (λ xs. xs ++ written key [] true (stamp p clock u) ∷ []) e ∙ append_assoc _ es _,
        λ x. t' (t x),
      )
  session-Follows {start} v (after_get {es = es} {db = u} key s) =
      subst
        (λ x.
          IsLog p.z p.config x
          × (logged p.z p.config x ≡ logged p.z p.config start.wal ++ es)
          × (IsSafe p.z p.config start.wal → IsSafe p.z p.config x))
        (sym (get-wal p key u)) (session-Follows v s)
  session-Follows v (after_flush {db = u} s) =
      let (w, e, t) = session-Follows v s in
      let ((l, g), t') = flush-Logs p u w in (l, g ∙ e, λ x. t' (t x))
  session-Follows v (after_compact {db = u} s) =
      let (w, e, t) = session-Follows v s in
      let ((l, g), t') = compact-Logs p u w in (l, g ∙ e, λ x. t' (t x))

  -- Calls of set and delete that do not raise, and any calls of get, flush and compact, keep the
  -- files and the batch of the log whole, and the log holds the entries that it held before, and
  -- then those of these calls in order.
  pub session_lem :
      {start db : Database p} {es : List Entry}
      → IsLog p.z p.config start.wal
      → Session p start es db
      → IsLog p.z p.config db.wal
        × (logged p.z p.config db.wal ≡ logged p.z p.config start.wal ++ es)
  session_lem v s = let (l, g, _) = session-Follows v s in (l, g)

  pub append-IsEncodable :
      (es fs : List Entry) → IsEncodable es → IsEncodable fs → IsEncodable (es ++ fs)
  append-IsEncodable [] fs a b = b
  append-IsEncodable (e ∷ es) fs a b = (a.0, append-IsEncodable es fs a.1 b)

  pub read_files-IsEncodable :
      (fs : List WalFile)
      → All (λ (f : WalFile). IsWhole p.z p.config f.content) fs
      → IsEncodable (read_files p.z fs)
  unfolding read_files
  read_files-IsEncodable [] a = tt
  read_files-IsEncodable (f ∷ fs) ((es, x), a) =
      append-IsEncodable (read_all p.z f.content) (read_files p.z fs)
        (rw (read_all-Encodes p.z p.config x) (Encodes-IsEncodable p x))
        (read_files-IsEncodable fs a)

  close_wal-run :
      (db : Database p) (w : Wal)
      → Wal.close p.config db.wal ≡ ok w
      → close_wal p db ≡ (ok tt, record db { wal = w })
  unfolding close_wal end_close
  close_wal-run db w h = rw h refl

  -- the log of a database that `close` has closed
  close-wal :
      (db db' : Database p)
      → IsLog p.z p.config db.wal
      → close p db ≡ (ok tt, db')
      → IsLog p.z p.config db'.wal × (recover p.z db'.wal ≡ logged p.z p.config db.wal)
  unfolding close
  close-wal db db' v h =
      let (_, s1, a1, h1) = >>=-inv (check_open p) _ h in
      let (_, s2, a2, h2) = >>=-inv (flush_source p) _ h1 in
      let (_, s3, a3, h3) = >>=-inv (close_wal p) _ h2 in
      let t1 =
        subst (λ (r : Result (Unit {0}) × Database p). Follows p.z p.config db.wal r.1.wal) a1
          (check_open-Logs p db v) in
      let t2 =
        subst (λ (r : Result (Unit {0}) × Database p). Follows p.z p.config s1.wal r.1.wal) a2
          (flush_source-Logs p s1 t1.0.0) in
      let (u, e, l, same, r) = close_lem p.z p.config s2.wal t2.0.0 in
      let q : u ≡ s3.wal =
        ap (λ (r : Result (Unit {0}) × Database p). r.1.wal) (sym (close_wal-run s2 u e) ∙ a3) in
      let q' : s3.wal ≡ db'.wal = ap (λ (r : Result (Unit {0}) × Database p). r.1.wal) h3 in
      subst (λ x. IsLog p.z p.config x × (recover p.z x ≡ logged p.z p.config db.wal)) (q ∙ q')
        (l, r ∙ (t2.0.1 ∙ t1.0.1))

  -- Take calls of set and delete that do not raise, and any calls of get, flush and compact, on a
  -- database whose log holds whole records, and then a close that does not raise. A database that
  -- is opened over the log files, with at least one concurrent memtable configured, is coherent,
  -- and get of a key of 1 to 1024 code points returns what the last of these calls for the key
  -- wrote, or nothing after a deletion; for a key with no call, what the last entry for it in the
  -- log from before left.
  pub reopen_lem :
      (start db db' : Database p) (es : List Entry) (keys : KeyCache) (now : ℕ)
      → 0 < p.config.concurrent_memtable_count
      → IsLog p.z p.config start.wal
      → Session p start es db
      → close p db ≡ (ok tt, db')
      → IsCoherent p (open_database p db'.wal.files keys now)
        × ((j : Key)
            → 0 < length j
            → length j ≤ 1024
            → (get p j (open_database p db'.wal.files keys now)).0
              ≡ ok (latest j es (latest j (logged p.z p.config start.wal) none)))
  unfolding recover
  reopen_lem start db db' es keys now pos v s h =
      let (w, e) = session_lem v s in
      let (l, r) = close-wal db db' w h in
      let a = read_files-IsEncodable db'.wal.files l.files in
      let entries = logged p.z p.config start.wal ++ es in
      let (c, g) =
        open_database_lem p db'.wal.files keys now entries pos (r ∙ e)
          (subst IsEncodable (r ∙ e) a) in
      let opened' = open_database p db'.wal.files keys now in
      (
        c,
        λ j lo hi.
            (get-eq-stored_value p j opened' c (unfold open_database in refl) lo hi).0
            ∙ g j
            ∙ ap ok (latest-append j (logged p.z p.config start.wal) es none),
      )
