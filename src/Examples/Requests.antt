-- ===== src/Examples/Requests.antt =====
-- What the calls of `CacheLayer` count.
use yellowdb.Prelude.{
  ℕ, ◌+◌, ◌≡◌, refl, ap, Option, none, some, [], ◌∷◌, ltb, arith, Bool-cases, inl, inr,
}
use yellowdb.Errors.{Result, ok, ok_inj}
use yellowdb.Text.{Key, Bytes}
use yellowdb.Text.Literal.{codes}
use yellowdb.Actions.{Action, pure, lift, modify, >>=-inv}
use yellowdb.Database.State.{Clock}
use yellowdb.Examples.Environment.{Environment}
use yellowdb.Examples.Store.{Store}
use yellowdb.Examples.Json.{read_object, read_time}
use yellowdb.Examples.CacheLayer.{
  cache_key, meta_key, SetTimes, on_db, set, get, count_hit, count_miss, drop_stale, check_time,
  end_meta, end_cached, load, end_get,
}
use yellowdb.Examples.CacheLaws.{Layer, on_db_inv}

module _ (e : Environment) (store : Store) (default_ttl : ℕ) where
  abbrev pub requests : Layer e store default_ttl → ℕ
  requests c = c.hits + c.misses

  -- a call that does not raise counts so many requests, by its result
  abbrev Counts : {A : Type 0} → Action (Layer e store default_ttl) A → (A → ℕ) → Type 0
  Counts {A} m n =
      (c c' : Layer e store default_ttl) (a : A) → m c ≡ (ok a, c') → requests c' ≡ requests c + n a

  -- 1 where a value was found
  abbrev found : Option e.Json → ℕ
  found none = 0
  found (some v) = 1

  pure-Counts : {A : Type 0} (a : A) (n : A → ℕ) → n a ≡ 0 → Counts (pure a) n
  pure-Counts {A} a n z c c' b h =
      let q : a ≡ b = ok_inj (ap (λ (r : Result A × Layer e store default_ttl). r.0) h) in
      let s : c ≡ c' = ap (λ (r : Result A × Layer e store default_ttl). r.1) h in
      omega (arith, ap n q, ap requests s, z)

  lift-Counts : {A : Type 0} (r : Result A) → Counts (lift r) (λ a. 0)
  lift-Counts {A} r c c' b h =
      omega (arith, ap requests (ap (λ (x : Result A × Layer e store default_ttl). x.1) h))

  on_db-Counts : {A : Type 0} (m : Action store.S A) → Counts (on_db e store default_ttl m) (λ a. 0)
  on_db-Counts m c c' a h =
      let (s, _, q) = on_db_inv e store default_ttl m c c' a h in omega (arith, ap requests q)

  drop_stale-Counts :
      (key : Key) (first second : Clock)
      → Counts (drop_stale e store default_ttl key first second) found
  unfolding drop_stale
  drop_stale-Counts key first second c c' o h =
      let (_, c1, p, h1) =
        >>=-inv (on_db e store default_ttl (store.delete (cache_key key) first)) _ h in
      let (_, c2, q, h2) =
        >>=-inv (on_db e store default_ttl (store.delete (meta_key key) second)) _ h1 in
      let a = on_db-Counts (store.delete (cache_key key) first) c c1 tt p in
      let b = on_db-Counts (store.delete (meta_key key) second) c1 c2 tt q in
      omega (arith, a, b, pure-Counts none found refl c2 c' o h2)

  check_time-Counts :
      (key : Key) (now : ℕ) (first second : Clock) (bytes : Bytes) (expires : ℕ)
      → Counts (check_time e store default_ttl key now first second bytes expires) found
  unfolding check_time count_hit
  check_time-Counts key now first second bytes expires c c' o h =
      elim (Bool-cases (ltb now expires)) [
        | inl q ↦
            let (_, c1, p, h1) = >>=-inv (modify (count_hit e store default_ttl)) _ (rw q at h) in
            let (v, c2, r, h2) = >>=-inv (lift (e.loads bytes)) _ h1 in
            let s : (record c { hits = c.hits + 1 }) ≡ c1 = ap (λ x. x.1) p in
            let t : some v ≡ o = ok_inj (ap (λ x. x.0) h2) in
            let u : c2 ≡ c' = ap (λ x. x.1) h2 in
            omega (
              arith,
              ap requests s,
              lift-Counts (e.loads bytes) c1 c2 v r,
              ap requests u,
              ap found t,
            )
        | inr q ↦ drop_stale-Counts key first second c c' o (rw q at h)
      ]

  end_meta-Counts :
      (key : Key) (now : ℕ) (first second : Clock) (bytes : Bytes) (meta : Option Bytes)
      → Counts (end_meta e store default_ttl key now first second bytes meta) found
  unfolding end_meta
  end_meta-Counts key now first second bytes none c c' o h =
      drop_stale-Counts key first second c c' o h
  end_meta-Counts key now first second bytes (some []) c c' o h =
      drop_stale-Counts key first second c c' o h
  end_meta-Counts key now first second bytes (some (b ∷ bs)) c c' o h =
      let (meta, c1, p, h1) = >>=-inv (lift (read_object e (b ∷ bs))) _ h in
      let (expires, c2, q, h2) = >>=-inv (lift (read_time e (codes "expires_at") meta)) _ h1 in
      omega (
        arith,
        lift-Counts (read_object e (b ∷ bs)) c c1 meta p,
        lift-Counts (read_time e (codes "expires_at") meta) c1 c2 expires q,
        check_time-Counts key now first second bytes expires c2 c' o h2,
      )

  end_cached-Counts :
      (key : Key) (now : ℕ) (first second : Clock) (o : Option Bytes)
      → Counts (end_cached e store default_ttl key now first second o) found
  unfolding end_cached
  end_cached-Counts key now first second none c c' o h = pure-Counts none found refl c c' o h
  end_cached-Counts key now first second (some []) c c' o h = pure-Counts none found refl c c' o h
  end_cached-Counts key now first second (some (b ∷ bs)) c c' o h =
      let (meta, c1, p, h1) = >>=-inv (on_db e store default_ttl (store.get (meta_key key))) _ h in
      omega (
        arith,
        on_db-Counts (store.get (meta_key key)) c c1 meta p,
        end_meta-Counts key now first second (b ∷ bs) meta c1 c' o h1,
      )

  set-Counts :
      (key : Key) (value : e.Json) (ttl : Option ℕ) (times : SetTimes)
      → Counts (set e store default_ttl key value ttl times) (λ a. 0)
  unfolding set
  set-Counts key value ttl times c c' a h =
      let (_, c1, p, h1) = >>=-inv (on_db e store default_ttl (store.batch _)) _ h in
      let s : (record c1 { writes = c1.writes + 1 }) ≡ c' = ap (λ x. x.1) h1 in
      omega (arith, on_db-Counts (store.batch _) c c1 tt p, ap requests s)

  load-Counts :
      (key : Key) (loader : Option (Result e.Json)) (ttl : Option ℕ) (times : SetTimes)
      → Counts (load e store default_ttl key loader ttl times) (λ a. 1)
  unfolding load count_miss
  load-Counts key none ttl times c c' o h =
      let (_, c1, p, h1) = >>=-inv (modify (count_miss e store default_ttl)) _ h in
      let s : (record c { misses = c.misses + 1 }) ≡ c1 = ap (λ x. x.1) p in
      omega (arith, ap requests s, pure-Counts none (λ a. 0) refl c1 c' o h1)
  load-Counts key (some r) ttl times c c' o h =
      let (_, c1, p, h1) = >>=-inv (modify (count_miss e store default_ttl)) _ h in
      let (v, c2, q, h2) = >>=-inv (lift r) _ h1 in
      let (_, c3, t, h3) = >>=-inv (set e store default_ttl key v ttl times) _ h2 in
      let s : (record c { misses = c.misses + 1 }) ≡ c1 = ap (λ x. x.1) p in
      let u : c3 ≡ c' = ap (λ x. x.1) h3 in
      omega (
        arith,
        ap requests s,
        lift-Counts r c1 c2 v q,
        set-Counts key v ttl times c2 c3 tt t,
        ap requests u,
      )

  -- 1 where no value was found
  abbrev missed : Option e.Json → ℕ
  missed none = 1
  missed (some v) = 0

  found-missed : (o : Option e.Json) → found o + missed o ≡ 1
  found-missed none = refl
  found-missed (some v) = refl

  end_get-Counts :
      (key : Key) (loader : Option (Result e.Json)) (ttl : Option ℕ) (times : SetTimes)
      (f : Option e.Json)
      → Counts (end_get e store default_ttl key loader ttl times f) (λ a. missed f)
  unfolding end_get
  end_get-Counts key loader ttl times none c c' o h = load-Counts key loader ttl times c c' o h
  end_get-Counts key loader ttl times (some v) c c' o h =
      pure-Counts (some v) (λ a. 0) refl c c' o h

  -- Every get of a cache layer that does not raise, hit or miss, with a loader or without, counts
  -- exactly one request.
  pub requests-get :
      (key : Key) (loader : Option (Result e.Json)) (ttl : Option ℕ) (now : ℕ)
      (first second : Clock) (times : SetTimes) (c c' : Layer e store default_ttl)
      (o : Option e.Json)
      → get e store default_ttl key loader ttl now first second times c ≡ (ok o, c')
      → c'.hits + c'.misses ≡ c.hits + c.misses + 1
  unfolding get
  requests-get key loader ttl now first second times c c' o h =
      let (bytes, c1, p, h1) =
        >>=-inv (on_db e store default_ttl (store.get (cache_key key))) _ h in
      let (f, c2, q, h2) =
        >>=-inv (end_cached e store default_ttl key now first second bytes) _ h1 in
      let a = on_db-Counts (store.get (cache_key key)) c c1 bytes p in
      let b = end_cached-Counts key now first second bytes c1 c2 f q in
      omega (arith, a, b, end_get-Counts key loader ttl times f c2 c' o h2, found-missed f)
