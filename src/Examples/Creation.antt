-- ===== src/Examples/Creation.antt =====
-- What `get_session` returns for a session that `create_session` has made.
use yellowdb.Prelude.{
  ℕ, ◌+◌, ◌*◌, ◌≤◌, ◌≡◌, refl, sym, ap, ◌∙◌, subst, Bool, true, false, Option, none, some, [], ◌∷◌,
  length, arith, if◌then◌else◌,
}
use yellowdb.Errors.{ok}
use yellowdb.Text.{Key}
use yellowdb.Text.Literal.{codes}
use yellowdb.Text.Order.{key_eq}
use yellowdb.Dict.{Dict, insert}
use yellowdb.Database.State.{Clock}
use yellowdb.Examples.Environment.{Environment}
use yellowdb.Examples.Store.{Store}
use yellowdb.Examples.SessionStore.{
  session_key, new_session, create_session, is_expired, touched, get_session,
}
use yellowdb.Examples.SessionLaws.{
  after_read, create_session_lem, get_session_lem, new_session-LastAccess,
}
use yellowdb.Examples.Renewal.{refresh_lem}

if_twice :
    {A : Type 0} (b : Bool) (x y z : A)
    → (if b then x else (if b then y else z)) ≡ (if b then x else z)
if_twice true x y z = refl
if_twice false x y z = refl

module _ (e : Environment) (store : Store) (ttl_seconds : ℕ) where
  -- the data that a caller gives, which may leave it out
  abbrev given : Option (Dict e.Json) → Dict e.Json
  given none = []
  given (some d) = d

  -- the object of a session, field by field
  abbrev pub session_of : Key → Key → ℕ → ℕ → Option (Dict e.Json) → Dict e.Json
  session_of session_id user_id created accessed data' =
      (codes "session_id", e.string session_id)
      ∷ (codes "user_id", e.string user_id)
      ∷ (codes "created_at", e.string (e.isoformat created))
      ∷ (codes "last_accessed", e.string (e.isoformat accessed))
      ∷ (codes "data", e.object (given data'))
      ∷ []

  new_session-eq-session_of :
      (session_id user_id : Key) (created accessed : ℕ) (data' : Option (Dict e.Json))
      → new_session e store ttl_seconds session_id user_id created accessed data'
        ≡ session_of session_id user_id created accessed data'
  unfolding new_session
  new_session-eq-session_of session_id user_id created accessed none = refl
  new_session-eq-session_of session_id user_id created accessed (some d) = refl

  touched-session_of :
      (session_id user_id : Key) (created accessed refreshed : ℕ) (data' : Option (Dict e.Json))
      → touched e store ttl_seconds refreshed (session_of session_id user_id created accessed data')
        ≡ session_of session_id user_id created refreshed data'
  unfolding insert key_eq
  touched-session_of session_id user_id created accessed refreshed data' = refl

  -- On a store that is in order, after a create_session and then a get_session of its session at
  -- most ttl_seconds after the time of access that it was created with, where neither raises and
  -- both have room, create_session has returned the number of the session, get_session returns an
  -- object with that number, the user, the time of creation and the data that were given, and the
  -- new time of access, this is what is stored for the session, and what is stored for any other
  -- key is as before the two calls.
  pub get-create_session :
      (user_id : Key) (data' : Option (Dict e.Json)) (session_id : Key)
      (created accessed now refreshed : ℕ) (clock clock' : Clock) (s s1 s2 : store.S) (r : Key)
      (o : Option (Dict e.Json))
      → store.IsReady s
      → length (session_key session_id) ≤ 1024
      → store.HasRoom
          (session_key session_id)
          (e.dumps (e.object (session_of session_id user_id created accessed data')))
          false
          clock
          s
      → create_session e store ttl_seconds user_id data' session_id created accessed clock s
        ≡ (ok r, s1)
      → now ≤ accessed + ttl_seconds * 1000000
      → store.HasRoom
          (session_key session_id)
          (e.dumps (e.object (session_of session_id user_id created refreshed data')))
          false
          clock'
          (after_read e store ttl_seconds session_id s1)
      → get_session e store ttl_seconds session_id now refreshed clock' s1 ≡ (ok o, s2)
      → (r ≡ session_id)
        × (o ≡ some (session_of session_id user_id created refreshed data'))
        × store.IsReady s2
        × ((j : Key)
            → store.value_at j s2 ≡ (
                if key_eq (session_key session_id) j
                then ok (
                    some
                      (e.dumps (e.object (session_of session_id user_id created refreshed data'))))
                else store.value_at j s))
  unfolding is_expired
  get-create_session user_id data' session_id created accessed now refreshed clock clock' s s1 s2 r
        o v l room h live room' g =
      let d0 = new_session e store ttl_seconds session_id user_id created accessed data' in
      let key = session_key session_id in
      let bytes = e.dumps (e.object (session_of session_id user_id created refreshed data')) in
      let made = new_session-eq-session_of session_id user_id created accessed data' in
      let d' : touched e store ttl_seconds refreshed d0
          ≡ session_of session_id user_id created refreshed data' =
        ap (touched e store ttl_seconds refreshed) made
        ∙ touched-session_of session_id user_id created accessed refreshed data' in
      let (q, v1, k, stored) =
        create_session_lem e store ttl_seconds user_id data' session_id created accessed clock s s1
          r v (subst (λ x. store.HasRoom key (e.dumps (e.object x)) false clock s) (sym made) room)
          h in
      let (ready, same, run) =
        get_session_lem e store ttl_seconds session_id now refreshed clock' s1 d0 accessed v1 l k
          (new_session-LastAccess e store ttl_seconds session_id user_id created accessed data') in
      let in_time : is_expired e store ttl_seconds now accessed ≡ false = ground (arith, live) in
      let s' = after_read e store ttl_seconds session_id s1 in
      let (found, ready2, _, _, stored') =
        refresh_lem e store ttl_seconds session_id refreshed clock' d0 s' s2 o ready
          (subst (λ x. store.HasRoom key (e.dumps (e.object x)) false clock' s') (sym d') room')
          (sym (rw in_time at run) ∙ g) in
      (
        q,
        found ∙ ap some d',
        ready2,
        λ j.
            stored' j
            ∙ ap
                (λ x.
                  if key_eq key j then ok (some (e.dumps (e.object x))) else store.value_at j s')
                d'
            ∙ ap (λ x. if key_eq key j then ok (some bytes) else x) (same j ∙ stored j)
            ∙ if_twice (key_eq key j) _ _ (store.value_at j s),
      )
