-- ===== src/Database/Timestamps.antt =====
-- The timestamps of the entries of a session.
use yellowdb.Prelude.{
  ℕ, ◌+◌, ◌≤◌, ◌<◌, ◌≡◌, refl, sym, ap, ◌∙◌, subst, Bool, true, false, List, [], ◌∷◌, ◌++◌, All,
  arith,
}
use yellowdb.Errors.{ok}
use yellowdb.Text.{Key, Bytes}
use yellowdb.Wal.Defs.{Wal}
use yellowdb.Wal.Recover.{Entry}
use yellowdb.Platform.{Platform}
use yellowdb.Database.State.{Database, Clock, check_open}
use yellowdb.Database.Flush.{flush_source}
use yellowdb.Database.Compaction.{perform_compaction}
use yellowdb.Database.Write.{set, delete, count_set, count_delete, put_cache}
use yellowdb.Database.Read.{get}
use yellowdb.Database.Close.{flush, compact}
use yellowdb.Database.Inversion.{stored, set_inv, delete_inv}
use yellowdb.Database.Unlogged.{get-outer}
use yellowdb.Database.Keeps.{
  >>-Keeps, front, upper, flush_of-Keeps, flush_when_full-Keeps, compact_range-Keeps,
  compact_when_due-Keeps,
}
use yellowdb.Database.Sessions.{
  Session, opened, after_set, after_delete, after_get, after_flush, after_compact, stamp, written,
}

-- each entry is later than those before it
abbrev pub IsIncreasing : List Entry → Type 0
IsIncreasing [] = Unit
IsIncreasing (e ∷ es) = All (λ (f : Entry). e.timestamp < f.timestamp) es × IsIncreasing es

append_later :
    (n : ℕ) (es : List Entry) (e : Entry)
    → All (λ (f : Entry). n < f.timestamp) es
    → n < e.timestamp
    → All (λ (f : Entry). n < f.timestamp) (es ++ e ∷ [])
append_later n [] e a h = (h, tt)
append_later n (f ∷ es) e (l, a) h = (l, append_later n es e a h)

append-IsIncreasing :
    (es : List Entry) (e : Entry)
    → IsIncreasing es
    → All (λ (f : Entry). f.timestamp < e.timestamp) es
    → IsIncreasing (es ++ e ∷ [])
append-IsIncreasing [] e i a = (tt, tt)
append-IsIncreasing (f ∷ es) e (l, i) (h, a) =
    (append_later f.timestamp es e l h, append-IsIncreasing es e i a)

-- no later than `n`
abbrev Until : ℕ → List Entry → Type 0
Until n es = All (λ (f : Entry). f.timestamp ≤ n) es

append-Until :
    (n m : ℕ) (es : List Entry) (e : Entry)
    → Until n es
    → n ≤ m
    → e.timestamp ≤ m
    → Until m (es ++ e ∷ [])
append-Until n m [] e a l h = (h, tt)
append-Until n m (f ∷ es) e (x, a) l h = (omega arith, append-Until n m es e a l h)

before-later :
    (n m : ℕ) (es : List Entry) → Until n es → n < m → All (λ (f : Entry). f.timestamp < m) es
before-later n m [] a h = tt
before-later n m (f ∷ es) (x, a) h = (omega arith, before-later n m es a h)

module _ (p : Platform) where
  set-counter :
      (key : Key) (value : Bytes) (clock : Clock) (db db' : Database p)
      → set p key value clock db ≡ (ok tt, db')
      → db'.timestamp_counter ≡ db.timestamp_counter + 1
  unfolding count_set put_cache
  set-counter key value clock db db' h =
      let (n, w, m, db2, _, _, _, _, ef, ec) = set_inv p key value clock db db' h in
      let db1 = count_set p (stored p key value n false w m db) in
      let k1 = sym (ap (λ r. front p r.1) ef) ∙ flush_when_full-Keeps p db1 in
      let k2 = sym (ap (λ r. upper p r.1) ec) ∙ compact_when_due-Keeps p clock db2 in
      ap (λ u. u.3) k2 ∙ ap (λ u. u.2) k1

  delete-counter :
      (key : Key) (clock : Clock) (db db' : Database p)
      → delete p key clock db ≡ (ok tt, db')
      → db'.timestamp_counter ≡ db.timestamp_counter + 1
  unfolding count_delete put_cache
  delete-counter key clock db db' h =
      let (n, w, m, _, _, _, _, ef) = delete_inv p key clock db db' h in
      let db1 = count_delete p (stored p key [] n true w m db) in
      ap (λ u. u.2) (sym (ap (λ r. front p r.1) ef) ∙ flush_when_full-Keeps p db1)

  flush-counter : (db : Database p) → (flush p db).1.timestamp_counter ≡ db.timestamp_counter
  unfolding flush check_open flush_source
  flush-counter db =
      ap (λ u. u.2)
        (>>-Keeps p (front p) (check_open p) (flush_source p) (λ d. refl)
          (λ d. flush_of-Keeps p d.memtable d) db)

  compact-counter : (db : Database p) → (compact p db).1.timestamp_counter ≡ db.timestamp_counter
  unfolding compact check_open perform_compaction
  compact-counter db =
      ap (λ u. u.3)
        (>>-Keeps p (upper p) (check_open p) (perform_compaction p) (λ d. refl)
          (λ d. compact_range-Keeps p _ d) db)

  get-counter :
      (key : Key) (db : Database p) → (get p key db).1.timestamp_counter ≡ db.timestamp_counter
  get-counter key db = ap (λ (x : Wal × Bool × ℕ). x.2) (get-outer p key db)

  -- no call of the session has read a later time than `t` for its timestamp
  unfoldable pub ReadBy :
      ℕ → {start db : Database p} {es : List Entry} → Session p start es db → Type 0
  ReadBy t opened = Unit
  ReadBy t (after_set key value clock s h) = (clock.stamp ≤ t) × ReadBy t s
  ReadBy t (after_delete key clock s h) = (clock.stamp ≤ t) × ReadBy t s
  ReadBy t (after_get key s) = ReadBy t s
  ReadBy t (after_flush s) = ReadBy t s
  ReadBy t (after_compact s) = ReadBy t s

  -- the clock does not go back
  unfoldable pub InOrder :
      {start db : Database p} {es : List Entry} → Session p start es db → Type 0
  unfolding ReadBy
  InOrder opened = Unit
  InOrder (after_set key value clock s h) = ReadBy clock.stamp s × InOrder s
  InOrder (after_delete key clock s h) = ReadBy clock.stamp s × InOrder s
  InOrder (after_get key s) = InOrder s
  InOrder (after_flush s) = InOrder s
  InOrder (after_compact s) = InOrder s

  Until-ReadBy :
      {start db : Database p} {es : List Entry} (t : ℕ) (s : Session p start es db)
      → ReadBy t s
      → Until (t + db.timestamp_counter) es
  unfolding ReadBy
  Until-ReadBy t opened r = tt
  Until-ReadBy t (after_set {es = es} {db = u} {db' = db} key value clock s h) (l, r) =
      let c = set-counter key value clock u db h in
      append-Until (t + u.timestamp_counter) (t + db.timestamp_counter) es
        (written key value false (stamp p clock u)) (Until-ReadBy t s r) (omega (arith, c))
        (omega (arith, c, l))
  Until-ReadBy t (after_delete {es = es} {db = u} {db' = db} key clock s h) (l, r) =
      let c = delete-counter key clock u db h in
      append-Until (t + u.timestamp_counter) (t + db.timestamp_counter) es
        (written key [] true (stamp p clock u)) (Until-ReadBy t s r) (omega (arith, c))
        (omega (arith, c, l))
  Until-ReadBy t (after_get {es = es} {db = u} key s) r =
      subst (λ n. Until (t + n) es) (sym (get-counter key u)) (Until-ReadBy t s r)
  Until-ReadBy t (after_flush {es = es} {db = u} s) r =
      subst (λ n. Until (t + n) es) (sym (flush-counter u)) (Until-ReadBy t s r)
  Until-ReadBy t (after_compact {es = es} {db = u} s) r =
      subst (λ n. Until (t + n) es) (sym (compact-counter u)) (Until-ReadBy t s r)

  -- If the clock of a session does not go back from one set or delete to a later one, each entry of
  -- the session has a greater timestamp than those before it, also where two calls read the same
  -- time.
  pub session-IsIncreasing :
      {start db : Database p} {es : List Entry} (s : Session p start es db)
      → InOrder s
      → IsIncreasing es
  unfolding InOrder
  session-IsIncreasing opened o = tt
  session-IsIncreasing (after_set {es = es} {db = u} key value clock s h) (r, o) =
      append-IsIncreasing es (written key value false (stamp p clock u)) (session-IsIncreasing s o)
        (before-later (clock.stamp + u.timestamp_counter) (stamp p clock u) es
          (Until-ReadBy clock.stamp s r) (omega arith))
  session-IsIncreasing (after_delete {es = es} {db = u} key clock s h) (r, o) =
      append-IsIncreasing es (written key [] true (stamp p clock u)) (session-IsIncreasing s o) (
        before-later (clock.stamp + u.timestamp_counter) (stamp p clock u) es
          (Until-ReadBy clock.stamp s r) (omega arith))
  session-IsIncreasing (after_get key s) o = session-IsIncreasing s o
  session-IsIncreasing (after_flush s) o = session-IsIncreasing s o
  session-IsIncreasing (after_compact s) o = session-IsIncreasing s o
