-- ===== src/Examples/SessionLaws.antt =====
-- What a session is, from its creation until it has expired.
use yellowdb.Prelude.{
  ℕ, ◌≤◌, ◌<◌, ◌≡◌, refl, sym, ap, ◌∙◌, subst, false, Option, none, some, [], ◌∷◌, length,
  length-append, arith, if◌then◌else◌,
}
use yellowdb.Errors.{Result, ok, ok_inj}
use yellowdb.Text.{Key, Bytes}
use yellowdb.Text.Literal.{codes}
use yellowdb.Text.Order.{key_eq, key_eq_refl}
use yellowdb.Dict.{Dict, lookup}
use yellowdb.Actions.{pure, continue, ◌>>=◌, ◌>>◌, >>=-ok, >>=-inv, with_result}
use yellowdb.Database.State.{Clock}
use yellowdb.Examples.Environment.{Environment}
use yellowdb.Examples.Store.{Store}
use yellowdb.Examples.Json.{read_object, read_time, read_object-dumps, read_time-some}
use yellowdb.Examples.SessionStore.{
  prefix, session_key, new_session, create_session, delete_session, is_expired, refresh, check_time,
  end_get, get_session,
}

module _ (e : Environment) (store : Store) (ttl_seconds : ℕ) where
  -- the store holds the session with this data
  abbrev pub Holds : Key → Dict e.Json → store.S → Type 0
  Holds session_id d s =
      store.value_at (session_key session_id) s ≡ ok (some (e.dumps (e.object d)))

  -- the time of the last access
  abbrev pub LastAccess : Dict e.Json → ℕ → Type 0
  LastAccess d t = lookup (codes "last_accessed") d ≡ some (e.string (e.isoformat t))

  -- the state behind the reading of the session
  abbrev pub after_read : Key → store.S → store.S
  after_read session_id s = (store.get (session_key session_id) s).1

  end_get-some :
      (session_id : Key) (now refreshed : ℕ) (clock : Clock) (bytes : Bytes) (d : Dict e.Json)
      (last : ℕ) (s : store.S)
      → 0 < length bytes
      → read_object e bytes ≡ ok d
      → read_time e (codes "last_accessed") d ≡ ok last
      → end_get e store ttl_seconds session_id now refreshed clock (some bytes) s
        ≡ check_time e store ttl_seconds session_id now refreshed clock d last s
  unfolding end_get ◌>>=◌ continue
  end_get-some session_id now refreshed clock [] d last s n h t = absurd (omega arith)
  end_get-some session_id now refreshed clock (b ∷ bs) d last s n h t = rw (h, t) refl

  -- What get_session does to a session that is stored, in time or not.
  pub get_session_lem :
      (session_id : Key) (now refreshed : ℕ) (clock : Clock) (s : store.S) (d : Dict e.Json)
      (last : ℕ)
      → store.IsReady s
      → length (session_key session_id) ≤ 1024
      → Holds session_id d s
      → LastAccess d last
      → store.IsReady (after_read session_id s)
        × ((j : Key) → store.value_at j (after_read session_id s) ≡ store.value_at j s)
        × (get_session e store ttl_seconds session_id now refreshed clock s
            ≡ (if is_expired e store ttl_seconds now last
                  then delete_session e store ttl_seconds session_id clock >> pure none
                  else refresh e store ttl_seconds session_id refreshed clock d)
                (after_read session_id s))
  unfolding get_session check_time
  get_session_lem session_id now refreshed clock s d last r l h t =
      let key = session_key session_id in
      let (v, r', k) = store.get_lem key s r (omega (arith, length-append prefix session_id)) l in
      let g = with_result (store.get key) s (some (e.dumps (e.object d))) (v ∙ h) in
      let s' = after_read session_id s in
      (
        r',
        k,
        >>=-ok (store.get key) (end_get e store ttl_seconds session_id now refreshed clock) g
            ∙ end_get-some session_id now refreshed clock (e.dumps (e.object d)) d last s'
                (e.dumps-nonempty (e.object d)) (read_object-dumps e d)
                (read_time-some e (codes "last_accessed") d last t)
            ∙ refl,
      )

  pub new_session-LastAccess :
      (session_id user_id : Key) (created accessed : ℕ) (data' : Option (Dict e.Json))
      → LastAccess
          (new_session e store ttl_seconds session_id user_id created accessed data')
          accessed
  unfolding new_session lookup key_eq
  new_session-LastAccess session_id user_id created accessed data' = refl

  pub create_session_lem :
      (user_id : Key) (data' : Option (Dict e.Json)) (session_id : Key) (created accessed : ℕ)
      (clock : Clock) (s s1 : store.S) (r : Key)
      → store.IsReady s
      → store.HasRoom
          (session_key session_id)
          (e.dumps
            (e.object (new_session e store ttl_seconds session_id user_id created accessed data')))
          false
          clock
          s
      → create_session e store ttl_seconds user_id data' session_id created accessed clock s
        ≡ (ok r, s1)
      → (r ≡ session_id)
        × store.IsReady s1
        × Holds session_id
            (new_session e store ttl_seconds session_id user_id created accessed data')
            s1
        × ((j : Key)
            → store.value_at j s1 ≡ (
                if key_eq (session_key session_id) j
                then ok (
                    some (
                      e.dumps (
                        e.object (
                          new_session e store ttl_seconds session_id user_id created accessed
                            data'))))
                else store.value_at j s))
  unfolding create_session
  create_session_lem user_id data' session_id created accessed clock s s1 r v room h =
      let key = session_key session_id in
      let d = new_session e store ttl_seconds session_id user_id created accessed data' in
      let (_, s2, a, q) = >>=-inv (store.set key (e.dumps (e.object d)) clock) _ h in
      let (v2, stored) = store.set_lem key (e.dumps (e.object d)) clock s s2 v room a in
      let same : s2 ≡ s1 = ap (λ (x : Result Key × store.S). x.1) q in
      (
        sym (ok_inj (ap (λ (x : Result Key × store.S). x.0) q)),
        subst store.IsReady same v2,
        subst (Holds session_id d) same (stored key ∙ rw (key_eq_refl key) refl),
        λ j. ap (store.value_at j) (sym same) ∙ stored j,
      )
