-- ===== src/Database/Inversion.antt =====
-- What a `set` or a `delete` that does not raise has done, step by step.
use yellowdb.Prelude.{ℕ, ◌+◌, ◌≡◌, refl, Bool, true, false, [], ap, ◌∙◌, sym, length, ◌==◌}
use yellowdb.Errors.{Error, ok, database_closed_error, invalid_key_error}
use yellowdb.Text.{Key, Bytes}
use yellowdb.Actions.{raise_if, >>=-inv, modify}
use yellowdb.Wal.Defs as Wal
use yellowdb.Wal.Defs.{Wal}
use yellowdb.Platform.{Platform}
use yellowdb.Database.Source.{Source, put, delete}
use yellowdb.Database.SourceLaws.{delete-eq-put}
use yellowdb.Database.State.{
  Database, Clock, check_open, validate_key, validate_value, get_timestamp,
}
use yellowdb.Database.Write.{
  set, write_wal, change_memtable, put_cache, count_set, count_delete, flush_when_full,
  compact_when_due, store_memtable_inv,
}
use yellowdb.Database.Write as Write

module _ (p : Platform) where
  raise_if_inv :
      (c : Bool) (e : Error) {db db' : Database p}
      → raise_if c e db ≡ (ok tt, db')
      → (c ≡ false) × (db ≡ db')
  raise_if_inv true e h = absurd (cc)
  raise_if_inv false e h = (refl, ap (λ r. r.1) h)

  check_open_inv :
      {db db' : Database p} → check_open p db ≡ (ok tt, db') → (db.closed ≡ false) × (db ≡ db')
  unfolding check_open
  check_open_inv {db} h = raise_if_inv db.closed database_closed_error h

  validate_key_inv :
      (key : Key) {db db' : Database p} → validate_key p key db ≡ (ok tt, db') → db ≡ db'
  unfolding validate_key
  validate_key_inv key h =
      let (u, s, a, b) = >>=-inv (raise_if (length key == 0) invalid_key_error) _ h in
      (raise_if_inv _ _ a).1 ∙ (raise_if_inv _ _ b).1

  validate_value_inv :
      (value : Bytes) {db db' : Database p} → validate_value p value db ≡ (ok tt, db') → db ≡ db'
  unfolding validate_value
  validate_value_inv value h = (raise_if_inv _ _ h).1

  get_timestamp_inv :
      (clock : Clock) (db db' : Database p) (n : ℕ)
      → get_timestamp p clock db ≡ (ok n, db')
      → (n ≡ clock.stamp + (db.timestamp_counter + 1))
        × (record db { timestamp_counter = db.timestamp_counter + 1 } ≡ db')
  unfolding get_timestamp
  get_timestamp_inv clock db db' n h =
      let q : ok (clock.stamp + (db.timestamp_counter + 1)) ≡ ok n = ap (λ r. r.0) h in
      (cc, ap (λ r. r.1) h)

  write_wal_inv :
      (key : Key) (value : Bytes) (timestamp : ℕ) (deleted : Bool) (db db' : Database p)
      → write_wal p key value timestamp deleted db ≡ (ok tt, db')
      → (w : Wal) × (Wal.write p.z p.config key value timestamp deleted db.wal ≡ (ok tt, w))
        × (record db { wal = w } ≡ db')
  unfolding write_wal
  write_wal_inv key value timestamp deleted db db' h =
      let w = (Wal.write p.z p.config key value timestamp deleted db.wal).1 in
      (w, ap (λ r. (r.0, w)) h, ap (λ r. r.1) h)

  -- the database when the log, the memtable and the cache have the entry
  abbrev pub stored : Key → Bytes → ℕ → Bool → Wal → Source p → Database p → Database p
  stored key value timestamp deleted w m db =
      put_cache p key value timestamp deleted
        (record db { timestamp_counter = db.timestamp_counter + 1; wal = w; memtable = m })

  -- A call that does not raise goes through the log, the memtable and the cache, in this order,
  -- and then flushes and compacts where that is due.
  pub set_inv :
      (key : Key) (value : Bytes) (clock : Clock) (db db' : Database p)
      → set p key value clock db ≡ (ok tt, db')
      → (n : ℕ) × (w : Wal) × (m : Source p) × (db2 : Database p) × (n
          ≡ clock.stamp + (db.timestamp_counter + 1))
        × (db.closed ≡ false)
        × (Wal.write p.z p.config key value n false db.wal ≡ (ok tt, w))
        × (put p key value n false db.memtable ≡ ok m)
        × (flush_when_full p (count_set p (stored key value n false w m db)) ≡ (ok tt, db2))
        × (compact_when_due p clock db2 ≡ (ok tt, db'))
  unfolding set change_memtable
  set_inv key value clock db db' h =
      let (_, s1, a1, h1) = >>=-inv (check_open p) _ h in
      let (_, s2, a2, h2) = >>=-inv (validate_key p key) _ h1 in
      let (_, s3, a3, h3) = >>=-inv (validate_value p value) _ h2 in
      let (n, s4, a4, h4) = >>=-inv (get_timestamp p clock) _ h3 in
      let (_, s5, a5, h5) = >>=-inv (write_wal p key value n false) _ h4 in
      let (_, s6, a6, h6) = >>=-inv (change_memtable p (λ m. put p key value n false m)) _ h5 in
      let (_, s7, a7, h7) = >>=-inv (modify (put_cache p key value n false)) _ h6 in
      let (_, s8, a8, h8) = >>=-inv (modify (count_set p)) _ h7 in
      let (_, s9, a9, h9) = >>=-inv (flush_when_full p) _ h8 in
      let (open', e1) = check_open_inv a1 in
      let (en, e4) = get_timestamp_inv clock s3 s4 n a4 in
      let (w, ew, e5) = write_wal_inv key value n false s4 s5 a5 in
      let (m, em, e6) = store_memtable_inv p _ s5 s6 a6 in
      let q3 : db ≡ s3 = e1 ∙ validate_key_inv key a2 ∙ validate_value_inv value a3 in
      let q4 =
        ap (λ (d : Database p). record d { timestamp_counter = d.timestamp_counter + 1 }) q3 ∙ e4 in
      let q5 = ap (λ (d : Database p). record d { wal = w }) q4 ∙ e5 in
      let q6 = ap (λ (d : Database p). record d { memtable = m }) q5 ∙ e6 in
      let q7 = ap (put_cache p key value n false) q6 ∙ ap (λ r. r.1) a7 in
      let q8 = ap (count_set p) q7 ∙ ap (λ r. r.1) a8 in
      (
        n,
        w,
        m,
        s9,
        en ∙ ap (λ (d : Database p). clock.stamp + (d.timestamp_counter + 1)) (sym q3),
        open',
        ap (λ (d : Database p). Wal.write p.z p.config key value n false d.wal) q4 ∙ ew,
        ap (λ (d : Database p). put p key value n false d.memtable) q5 ∙ em,
        ap (flush_when_full p) q8 ∙ a9,
        h9,
      )

  pub delete_inv :
      (key : Key) (clock : Clock) (db db' : Database p)
      → Write.delete p key clock db ≡ (ok tt, db')
      → (n : ℕ) × (w : Wal) × (m : Source p) × (n ≡ clock.stamp + (db.timestamp_counter + 1))
        × (db.closed ≡ false)
        × (Wal.write p.z p.config key [] n true db.wal ≡ (ok tt, w))
        × (put p key [] n true db.memtable ≡ ok m)
        × (flush_when_full p (count_delete p (stored key [] n true w m db)) ≡ (ok tt, db'))
  unfolding Write.delete change_memtable
  delete_inv key clock db db' h =
      let (_, s1, a1, h1) = >>=-inv (check_open p) _ h in
      let (_, s2, a2, h2) = >>=-inv (validate_key p key) _ h1 in
      let (n, s3, a3, h3) = >>=-inv (get_timestamp p clock) _ h2 in
      let (_, s4, a4, h4) = >>=-inv (write_wal p key [] n true) _ h3 in
      let (_, s5, a5, h5) = >>=-inv (change_memtable p (delete p key n)) _ h4 in
      let (_, s6, a6, h6) = >>=-inv (modify (put_cache p key [] n true)) _ h5 in
      let (_, s7, a7, h7) = >>=-inv (modify (count_delete p)) _ h6 in
      let (open', e1) = check_open_inv a1 in
      let (en, e3) = get_timestamp_inv clock s2 s3 n a3 in
      let (w, ew, e4) = write_wal_inv key [] n true s3 s4 a4 in
      let (m, em, e5) = store_memtable_inv p _ s4 s5 a5 in
      let q2 : db ≡ s2 = e1 ∙ validate_key_inv key a2 in
      let q3 =
        ap (λ (d : Database p). record d { timestamp_counter = d.timestamp_counter + 1 }) q2 ∙ e3 in
      let q4 = ap (λ (d : Database p). record d { wal = w }) q3 ∙ e4 in
      let q5 = ap (λ (d : Database p). record d { memtable = m }) q4 ∙ e5 in
      let q6 = ap (put_cache p key [] n true) q5 ∙ ap (λ r. r.1) a6 in
      let q7 = ap (count_delete p) q6 ∙ ap (λ r. r.1) a7 in
      (
        n,
        w,
        m,
        en ∙ ap (λ (d : Database p). clock.stamp + (d.timestamp_counter + 1)) (sym q2),
        open',
        ap (λ (d : Database p). Wal.write p.z p.config key [] n true d.wal) q3 ∙ ew,
        sym (delete-eq-put p key n db.memtable)
            ∙ ap (λ (d : Database p). delete p key n d.memtable) q4
            ∙ em,
        ap (flush_when_full p) q7 ∙ h7,
      )
