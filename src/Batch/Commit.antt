-- ===== src/Batch/Commit.antt =====
-- What `Batch.commit` leaves in the log.
use yellowdb.Prelude.{
  ◌≡◌, refl, sym, ap, Bool, true, false, List, [], ◌∷◌, ◌++◌, map, append-nil, append_assoc, subst,
}
use yellowdb.Errors.{ok}
use yellowdb.Text.{Key, Bytes}
use yellowdb.Actions.{>>=-inv}
use yellowdb.Wal.Recover.{Entry}
use yellowdb.Platform.{Platform}
use yellowdb.Database.State.{Database, Clock}
use yellowdb.Database.Sessions.{written, stamp, Session, after_set, after_delete}
use yellowdb.Batch.{Operation, put_operation, delete_operation, apply, commit}

-- key, value and deletion mark
abbrev pub effect : Operation → Key × Bytes × Bool
effect (put_operation key value) = (key, value, false)
effect (delete_operation key) = (key, [], true)

abbrev pub effect_of : Entry → Key × Bytes × Bool
effect_of e = (e.key, e.value, e.deleted)

module _ (p : Platform) where
  apply-Session :
      (start db db' : Database p) (es : List Entry) (o : Operation) (clock : Clock)
      → Session p start es db
      → apply p o clock db ≡ (ok tt, db')
      → (e : Entry) × Session p start (es ++ e ∷ []) db' × (effect_of e ≡ effect o)
  unfolding apply
  apply-Session start db db' es (put_operation key value) clock s h =
      (written key value false (stamp p clock db), after_set key value clock s h, refl)
  apply-Session start db db' es (delete_operation key) clock s h =
      (written key [] true (stamp p clock db), after_delete key clock s h, refl)

  -- A commit that does not raise continues a session with the entries of its operations, in the
  -- order in which they were queued.
  pub commit-Session :
      (start db db' : Database p) (es : List Entry) (operations : List (Operation × Clock))
      → Session p start es db
      → commit p operations db ≡ (ok tt, db')
      → (fs : List Entry) × Session p start (es ++ fs) db'
        × (map effect_of fs ≡ map (λ o. effect o.0) operations)
  unfolding commit
  commit-Session start db db' es [] s h =
      let q : db ≡ db' = ap (λ r. r.1) h in
      (
        [],
        subst (λ xs. Session p start xs db') (sym (append-nil es)) (subst (Session p start es) q s),
        refl,
      )
  commit-Session start db db' es ((o, clock) ∷ operations) s h =
      let (_, db1, a, h1) = >>=-inv (apply p o clock) _ h in
      let (e, s1, q) = apply-Session start db db1 es o clock s a in
      let (fs, s2, r) = commit-Session start db1 db' (es ++ e ∷ []) operations s1 h1 in
      (e ∷ fs, subst (λ xs. Session p start xs db') (append_assoc es (e ∷ []) fs) s2, cc)
