-- ===== src/Examples/CacheLaws.antt =====
-- What `CacheLayer.get` returns after `set`.
use yellowdb.Prelude.{
  ℕ, ◌+◌, ◌≤◌, ◌<◌, ◌≡◌, refl, sym, ap, ◌∙◌, subst, Option, some, [], ◌∷◌, length, length-append,
  lt→ltb, arith,
}
use yellowdb.Errors.{Result, ok}
use yellowdb.Text.{Key, Bytes}
use yellowdb.Text.Literal.{codes}
use yellowdb.Dict.{Dict, lookup}
use yellowdb.Actions.{Action, continue, ◌>>=◌, >>=-ok, >>=-inv, with_result}
use yellowdb.Batch.{put_operation}
use yellowdb.Database.State.{Clock}
use yellowdb.Examples.Environment.{Environment}
use yellowdb.Examples.Store.{Store}
use yellowdb.Examples.Json.{read_object, read_time, read_object-dumps, read_time-some}
use yellowdb.Examples.CacheLayer.{
  cache_key, meta_key, cache_prefix, metadata_prefix, SetTimes, CacheLayer, on_db, count_hit,
  check_time, end_meta, end_cached, end_get, get,
}

module _ (store : Store) where
  -- a batch of two writes
  pub batch_inv :
      (k1 k2 : Key) (v1 v2 : Bytes) (c1 c2 : Clock) (s s2 : store.S)
      → store.batch ((put_operation k1 v1, c1) ∷ (put_operation k2 v2, c2) ∷ []) s ≡ (ok tt, s2)
      → (s1 : store.S) × (store.set k1 v1 c1 s ≡ (ok tt, s1))
        × (store.set k2 v2 c2 s1 ≡ (ok tt, s2))
  batch_inv k1 k2 v1 v2 c1 c2 s s2 h =
      let rest = (put_operation k2 v2, c2) ∷ [] in
      let (_, s1, a, h1) =
        >>=-inv (store.set k1 v1 c1) (λ _. store.batch rest)
          (sym (store.batch-put k1 v1 c1 rest s) ∙ h) in
      let (_, s1', b, h2) =
        >>=-inv (store.set k2 v2 c2) (λ _. store.batch [])
          (sym (store.batch-put k2 v2 c2 [] s1) ∙ h1) in
      let q : s1' ≡ s2 = ap (λ r. r.1) (sym (store.batch-nil s1') ∙ h2) in
      (s1, a, subst (λ x. store.set k2 v2 c2 s1 ≡ (ok tt, x)) q b)

module _ (e : Environment) (store : Store) (default_ttl : ℕ) where
  abbrev pub Layer : Type 0
  Layer = CacheLayer e store default_ttl

  on_db_run :
      {A : Type 0} (m : Action store.S A) (c : Layer) (a : A) (s : store.S)
      → m c.db ≡ (ok a, s)
      → on_db e store default_ttl m c ≡ (ok a, record c { db = s })
  unfolding on_db
  on_db_run m c a s h = rw h refl

  pub on_db_inv :
      {A : Type 0} (m : Action store.S A) (c c' : Layer) (a : A)
      → on_db e store default_ttl m c ≡ (ok a, c')
      → (s : store.S) × (m c.db ≡ (ok a, s)) × (record c { db = s } ≡ c')
  unfolding on_db
  on_db_inv {A} m c c' a h = (
    (m c.db).1,
    with_result m c.db a (ap (λ (r : Result A × Layer). r.0) h),
    ap (λ (r : Result A × Layer). r.1) h,
  )

  -- the bytes under the two keys
  pub record Cached (key : Key) (value : e.Json) (meta : Dict e.Json) (s : store.S) : Type 0 where
    pub value_stored : store.value_at (cache_key key) s ≡ ok (some (e.dumps value))
    pub meta_stored : store.value_at (meta_key key) s ≡ ok (some (e.dumps (e.object meta)))

  end_meta-some :
      (key : Key) (now : ℕ) (first second : Clock) (cached bytes : Bytes) (meta : Dict e.Json)
      (expires : ℕ) (c : Layer)
      → 0 < length bytes
      → read_object e bytes ≡ ok meta
      → read_time e (codes "expires_at") meta ≡ ok expires
      → end_meta e store default_ttl key now first second cached (some bytes) c
        ≡ check_time e store default_ttl key now first second cached expires c
  unfolding end_meta ◌>>=◌ continue
  end_meta-some key now first second cached [] meta expires c n h t = absurd (omega arith)
  end_meta-some key now first second cached (b ∷ bs) meta expires c n h t = rw (h, t) refl

  end_cached-some :
      (key : Key) (now : ℕ) (first second : Clock) (bytes : Bytes) (o : Option Bytes) (c : Layer)
      (s : store.S)
      → 0 < length bytes
      → store.get (meta_key key) c.db ≡ (ok o, s)
      → end_cached e store default_ttl key now first second (some bytes) c
        ≡ end_meta e store default_ttl key now first second bytes o (record c { db = s })
  unfolding end_cached ◌>>=◌ continue on_db
  end_cached-some key now first second [] o c s n h = absurd (omega arith)
  end_cached-some key now first second (b ∷ bs) o c s n h = rw h refl

  check_time_fresh :
      (key : Key) (now : ℕ) (first second : Clock) (value : e.Json) (expires : ℕ) (c : Layer)
      → now < expires
      → check_time e store default_ttl key now first second (e.dumps value) expires c
        ≡ (ok (some value), record c { hits = c.hits + 1 })
  unfolding check_time ◌>>=◌ continue count_hit
  check_time_fresh key now first second value expires c h =
      rw (lt→ltb now expires h, e.loads-dumps value) refl

  -- an entry in time is a hit
  pub get-hit :
      (key : Key) (value : e.Json) (meta : Dict e.Json) (expires : ℕ)
      (loader : Option (Result e.Json)) (ttl : Option ℕ) (now : ℕ) (first second : Clock)
      (times : SetTimes) (c : Layer)
      → store.IsReady c.db
      → length (cache_key key) ≤ 1024
      → Cached key value meta c.db
      → lookup (codes "expires_at") meta ≡ some (e.string (e.isoformat expires))
      → now < expires
      → (s : store.S) × store.IsReady s
        × ((j : Key) → store.value_at j s ≡ store.value_at j c.db)
        × (get e store default_ttl key loader ttl now first second times c
            ≡ (ok (some value), record c { db = s; hits = c.hits + 1 }))
  unfolding get end_get
  get-hit key value meta expires loader ttl now first second times c v l cached at live =
      let k1 = cache_key key in
      let k2 = meta_key key in
      let (v1, r1, same1) =
        store.get_lem k1 c.db v (omega (arith, length-append cache_prefix key)) l in
      let s1 = (store.get k1 c.db).1 in
      let g1 =
        on_db_run (store.get k1) c (some (e.dumps value)) s1
          (with_result (store.get k1) c.db (some (e.dumps value)) (v1 ∙ cached.value_stored)) in
      let (v2, r2, same2) =
        store.get_lem k2 s1 r1 (omega (arith, length-append metadata_prefix key))
          (omega (arith, l, length-append cache_prefix key, length-append metadata_prefix key)) in
      let s2 = (store.get k2 s1).1 in
      let g2 =
        with_result (store.get k2) s1 (some (e.dumps (e.object meta)))
          (v2 ∙ same1 k2 ∙ cached.meta_stored) in
      let found =
        end_cached-some key now first second (e.dumps value) (some (e.dumps (e.object meta)))
          (record c { db = s1 }) s2 (e.dumps-nonempty value) g2
        ∙ end_meta-some key now first second (e.dumps value) (e.dumps (e.object meta)) meta expires
            (record c { db = s2 }) (e.dumps-nonempty (e.object meta)) (read_object-dumps e meta)
            (read_time-some e (codes "expires_at") meta expires at)
        ∙ check_time_fresh key now first second value expires (record c { db = s2 }) live in
      (
        s2,
        r2,
        λ j. same2 j ∙ same1 j,
        >>=-ok (on_db e store default_ttl (store.get k1)) _ g1
            ∙ >>=-ok
                (λ x. end_cached e store default_ttl key now first second (some (e.dumps value)) x)
                (end_get e store default_ttl key loader ttl times) found,
      )
