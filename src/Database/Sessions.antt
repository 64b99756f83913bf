-- ===== src/Database/Sessions.antt =====
-- A session: calls of one database, one after the other, and what is found when it is opened again.
use yellowdb.Prelude.{ℕ, ◌+◌, ◌≡◌, ◌∙◌, subst, Bool, true, false, List, [], ◌∷◌, ◌++◌}
use yellowdb.Errors.{Result, ok}
use yellowdb.Text.{Key, Bytes}
use yellowdb.Wal.Recover.{Entry}
use yellowdb.Wal.Log.{IsLog}
use yellowdb.Wal.Follows.{Follows, Follows-refl, Extends, write-Extends}
use yellowdb.Platform.{Platform}
use yellowdb.Database.State.{Database, Clock, check_open}
use yellowdb.Database.Flush.{flush_source}
use yellowdb.Database.Compaction.{perform_compaction}
use yellowdb.Database.Write.{set, delete, count_set, count_delete, put_cache}
use yellowdb.Database.Read.{get}
use yellowdb.Database.Close.{flush, compact}
use yellowdb.Database.Inversion.{stored, set_inv, delete_inv}
use yellowdb.Database.Logging.{
  Logs, >>-Logs, flush_source-Logs, flush_when_full-Logs, perform_compaction-Logs,
  compact_when_due-Logs,
}

abbrev pub written : Key → Bytes → Bool → ℕ → Entry
written key value deleted n = record { key = key; value = value; timestamp = n; deleted = deleted }

module _ (p : Platform) where
  -- the timestamp of the next entry
  abbrev pub stamp : Clock → Database p → ℕ
  stamp clock db = clock.stamp + (db.timestamp_counter + 1)

  -- The calls that lead from `start` to a state, and the entries that they have written. A `set` or
  -- `delete` has not raised; the other calls may have.
  pub data Session (start : Database p) : List Entry → Database p → Type 0 where
    opened : Session start [] start
    after_set :
        {es : List Entry} {db db' : Database p} (key : Key) (value : Bytes) (clock : Clock)
        → Session start es db
        → set p key value clock db ≡ (ok tt, db')
        → Session start (es ++ written key value false (stamp clock db) ∷ []) db'
    after_delete :
        {es : List Entry} {db db' : Database p} (key : Key) (clock : Clock)
        → Session start es db
        → delete p key clock db ≡ (ok tt, db')
        → Session start (es ++ written key [] true (stamp clock db) ∷ []) db'
    after_get :
        {es : List Entry} {db : Database p} (key : Key)
        → Session start es db
        → Session start es (get p key db).1
    after_flush :
        {es : List Entry} {db : Database p} → Session start es db → Session start es (flush p db).1
    after_compact :
        {es : List Entry} {db : Database p}
        → Session start es db
        → Session start es (compact p db).1

  pub set_lem :
      (key : Key) (value : Bytes) (clock : Clock) (db db' : Database p)
      → IsLog p.z p.config db.wal
      → set p key value clock db ≡ (ok tt, db')
      → Extends p.z p.config db.wal db'.wal (written key value false (stamp clock db))
  unfolding count_set put_cache
  set_lem key value clock db db' v h =
      let (n, w, m, db2, en, open', ew, em, ef, ec) = set_inv p key value clock db db' h in
      let g = write-Extends p.z p.config db.wal w (written key value false n) v ew in
      let db1 = count_set p (stored p key value n false w m db) in
      let f : Follows p.z p.config w db2.wal =
        subst (λ (r : Result (Unit {0}) × Database p). Follows p.z p.config w r.1.wal) ef
          (flush_when_full-Logs p db1 g.0.0) in
      let c : Follows p.z p.config db2.wal db'.wal =
        subst (λ (r : Result (Unit {0}) × Database p). Follows p.z p.config db2.wal r.1.wal) ec
          (compact_when_due-Logs p clock db2 f.0.0) in
      ((c.0.0, c.0.1 ∙ f.0.1 ∙ rw (← en) g.0.1), λ s. c.1 (f.1 (g.1 s)))

  pub delete_lem :
      (key : Key) (clock : Clock) (db db' : Database p)
      → IsLog p.z p.config db.wal
      → delete p key clock db ≡ (ok tt, db')
      → Extends p.z p.config db.wal db'.wal (written key [] true (stamp clock db))
  unfolding count_delete put_cache
  delete_lem key clock db db' v h =
      let (n, w, m, en, open', ew, em, ef) = delete_inv p key clock db db' h in
      let g = write-Extends p.z p.config db.wal w (written key [] true n) v ew in
      let db1 = count_delete p (stored p key [] n true w m db) in
      let f : Follows p.z p.config w db'.wal =
        subst (λ (r : Result (Unit {0}) × Database p). Follows p.z p.config w r.1.wal) ef
          (flush_when_full-Logs p db1 g.0.0) in
      ((f.0.0, f.0.1 ∙ rw (← en) g.0.1), λ s. f.1 (g.1 s))

  pub check_open-Logs : Logs p (check_open p)
  unfolding check_open
  check_open-Logs db v = Follows-refl p.z p.config db.wal v

  pub flush-Logs : Logs p (flush p)
  unfolding flush
  flush-Logs = >>-Logs p (check_open p) (flush_source p) check_open-Logs (flush_source-Logs p)

  pub compact-Logs : Logs p (compact p)
  unfolding compact
  compact-Logs =
      >>-Logs p (check_open p) (perform_compaction p) check_open-Logs (perform_compaction-Logs p)
