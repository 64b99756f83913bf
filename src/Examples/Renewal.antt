-- ===== src/Examples/Renewal.antt =====
-- What `get_session` does to a session in time, and to one that has expired.
use yellowdb.Prelude.{
  ℕ, ◌+◌, ◌*◌, ◌≤◌, ◌<◌, ◌≡◌, refl, sym, ap, ◌∙◌, subst, true, false, Option, none, some, [],
  length, arith, if◌then◌else◌,
}
use yellowdb.Errors.{Result, ok, ok_inj}
use yellowdb.Text.{Key}
use yellowdb.Text.Literal.{codes}
use yellowdb.Text.Order.{key_eq, key_eq_refl}
use yellowdb.Dict.{Dict, lookup-insert_self}
use yellowdb.Actions.{>>=-inv}
use yellowdb.Database.State.{Clock}
use yellowdb.Examples.Environment.{Environment}
use yellowdb.Examples.Store.{Store}
use yellowdb.Examples.SessionStore.{
  session_key, delete_session, is_expired, refresh, touched, get_session,
}
use yellowdb.Examples.SessionLaws.{Holds, LastAccess, after_read, get_session_lem}

module _ (e : Environment) (store : Store) (ttl_seconds : ℕ) where
  pub refresh_lem :
      (session_id : Key) (refreshed : ℕ) (clock : Clock) (d : Dict e.Json) (s s1 : store.S)
      (o : Option (Dict e.Json))
      → store.IsReady s
      → store.HasRoom
          (session_key session_id)
          (e.dumps (e.object (touched e store ttl_seconds refreshed d)))
          false
          clock
          s
      → refresh e store ttl_seconds session_id refreshed clock d s ≡ (ok o, s1)
      → (o ≡ some (touched e store ttl_seconds refreshed d))
        × store.IsReady s1
        × Holds e store ttl_seconds session_id (touched e store ttl_seconds refreshed d) s1
        × LastAccess e store ttl_seconds (touched e store ttl_seconds refreshed d) refreshed
        × ((j : Key)
            → store.value_at j s1 ≡ (
                if key_eq (session_key session_id) j
                then ok (some (e.dumps (e.object (touched e store ttl_seconds refreshed d))))
                else store.value_at j s))
  unfolding refresh
  refresh_lem session_id refreshed clock d s s1 o v room h =
      let key = session_key session_id in
      let d' = touched e store ttl_seconds refreshed d in
      let (_, s2, a, q) = >>=-inv (store.set key (e.dumps (e.object d')) clock) _ h in
      let (v2, stored) = store.set_lem key (e.dumps (e.object d')) clock s s2 v room a in
      let same : s2 ≡ s1 = ap (λ (x : Result (Option (Dict e.Json)) × store.S). x.1) q in
      (
        sym (ok_inj (ap (λ (x : Result (Option (Dict e.Json)) × store.S). x.0) q)),
        subst store.IsReady same v2,
        subst (Holds e store ttl_seconds session_id d') same
            (stored key ∙ rw (key_eq_refl key) refl),
        lookup-insert_self (codes "last_accessed") (e.string (e.isoformat refreshed)) d,
        λ j. ap (store.value_at j) (sym same) ∙ stored j,
      )

  -- A get_session at most ttl_seconds after the last access that does not raise and has room
  -- returns the session with the new time of access, and leaves it stored like this in a store that
  -- is in order, so that the time to live starts anew.
  pub get_session-renewed :
      (session_id : Key) (now refreshed : ℕ) (clock : Clock) (s s1 : store.S) (d : Dict e.Json)
      (last : ℕ) (o : Option (Dict e.Json))
      → store.IsReady s
      → length (session_key session_id) ≤ 1024
      → Holds e store ttl_seconds session_id d s
      → LastAccess e store ttl_seconds d last
      → now ≤ last + ttl_seconds * 1000000
      → store.HasRoom
          (session_key session_id)
          (e.dumps (e.object (touched e store ttl_seconds refreshed d)))
          false
          clock
          (after_read e store ttl_seconds session_id s)
      → get_session e store ttl_seconds session_id now refreshed clock s ≡ (ok o, s1)
      → (o ≡ some (touched e store ttl_seconds refreshed d))
        × store.IsReady s1
        × Holds e store ttl_seconds session_id (touched e store ttl_seconds refreshed d) s1
        × LastAccess e store ttl_seconds (touched e store ttl_seconds refreshed d) refreshed
  unfolding is_expired
  get_session-renewed session_id now refreshed clock s s1 d last o v l h t live room g =
      let (ready, same, run) =
        get_session_lem e store ttl_seconds session_id now refreshed clock s d last v l h t in
      let q : is_expired e store ttl_seconds now last ≡ false = ground (arith, live) in
      let (found, ready1, holds, time, _) =
        refresh_lem session_id refreshed clock d (after_read e store ttl_seconds session_id s) s1 o
          ready room (sym (rw q at run) ∙ g) in
      (found, ready1, holds, time)

  -- A get_session more than ttl_seconds after the last access that does not raise and has room
  -- returns None, leaves nothing stored for the session, and changes what is stored for no other
  -- key.
  pub get_session-expired :
      (session_id : Key) (now refreshed : ℕ) (clock : Clock) (s s1 : store.S) (d : Dict e.Json)
      (last : ℕ) (o : Option (Dict e.Json))
      → store.IsReady s
      → length (session_key session_id) ≤ 1024
      → Holds e store ttl_seconds session_id d s
      → LastAccess e store ttl_seconds d last
      → last + ttl_seconds * 1000000 < now
      → store.HasRoom
          (session_key session_id)
          []
          true
          clock
          (after_read e store ttl_seconds session_id s)
      → get_session e store ttl_seconds session_id now refreshed clock s ≡ (ok o, s1)
      → (o ≡ none)
        × store.IsReady s1
        × ((j : Key)
            → store.value_at j s1
              ≡ (if key_eq (session_key session_id) j then ok none else store.value_at j s))
  unfolding is_expired delete_session
  get_session-expired session_id now refreshed clock s s1 d last o v l h t over room g =
      let (ready, same, run) =
        get_session_lem e store ttl_seconds session_id now refreshed clock s d last v l h t in
      let q : is_expired e store ttl_seconds now last ≡ true = ground (arith, over) in
      let (_, s2, a, p) =
        >>=-inv (delete_session e store ttl_seconds session_id clock) _ (sym (rw q at run) ∙ g) in
      let (v2, gone) =
        store.delete_lem (session_key session_id) clock
          (after_read e store ttl_seconds session_id s) s2 ready room a in
      let end : s2 ≡ s1 = ap (λ (x : Result (Option (Dict e.Json)) × store.S). x.1) p in
      (
        sym (ok_inj (ap (λ (x : Result (Option (Dict e.Json)) × store.S). x.0) p)),
        subst store.IsReady end v2,
        λ j.
            ap (store.value_at j) (sym end)
            ∙ gone j
            ∙ ap (λ x. if key_eq (session_key session_id) j then ok none else x) (same j),
      )
