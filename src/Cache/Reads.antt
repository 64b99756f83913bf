-- ===== src/Cache/Reads.antt =====
-- `put`, `get` and `invalidate` as a client sees them.
use yellowdb.Prelude.{
  ℕ, ◌+◌, ◌≤◌, ◌≡◌, refl, sym, ap, ◌∙◌, subst, ◌⊎◌, Bool, false, none, some, [], ◌∷◌, ◌++◌, length,
  leb, arith, Option-cases, inl, inr, if◌then◌else◌, drop,
}
use yellowdb.Text.{Key, Bytes}
use yellowdb.Text.Order.{key_eq, key_eq_iff, key_eq_refl}
use yellowdb.Dict.{Dict, lookup, insert, remove}
use yellowdb.Dict.Distinct.{
  IsDistinct, lookup-append, lookup-remove, remove-IsDistinct, append-IsDistinct,
}
use yellowdb.Cache.Defs.{Version, WriteThroughCache, move_to_end, drop_key, evict, put, get}
use yellowdb.Cache.Laws.{
  total_size, total_size-append, total_size-remove, IsValid, drop_key-IsValid,
  maximum_size-drop_key, evict_lem, IsNeeded, drop-IsDistinct,
}
use yellowdb.Cache.Queue.{remove_absent, move_to_end-insert, evict_last, lookup-drop}

module _ (key : Key) (value : Bytes) (timestamp : ℕ) (deleted : Bool) (c : WriteThroughCache) where
  abbrev pub version : Version
  version = record { value = value; timestamp = timestamp; deleted = deleted }

  -- the entries before eviction
  abbrev queue : Dict Version
  queue = remove key c.entries ++ (key, version) ∷ []

  entries-drop_key : (drop_key key c).entries ≡ remove key c.entries
  unfolding drop_key
  entries-drop_key = elim (Option-cases (lookup key c.entries)) [
    | inl e ↦ rw (e, drop_key) (sym (remove_absent key c.entries e))
    | inr (v, e) ↦ rw (e, drop_key) refl
  ]

  -- so the key is in no entry that is left
  removed : IsValid c → lookup key (remove key c.entries) ≡ none
  removed v = ap (lookup key) (sym entries-drop_key) ∙ (drop_key-IsValid key c v).1

  removed-IsDistinct : IsValid c → IsDistinct (remove key c.entries)
  removed-IsDistinct v = remove-IsDistinct key c.entries v.distinct

  queue_size : IsValid c → (drop_key key c).size + length value ≡ total_size queue
  unfolding total_size
  queue_size v =
      let (v1, _) = drop_key-IsValid key c v in
      let counted' = rw entries-drop_key at v1.counted in
      omega (arith, counted', total_size-append (remove key c.entries) ((key, version) ∷ []))

  -- what the loop is given
  moved : IsValid c → move_to_end key (insert key version (drop_key key c).entries) ≡ queue
  moved v = rw entries-drop_key (move_to_end-insert key version (remove key c.entries) (removed v))

  put-entries :
      IsValid c
      → (put key value timestamp deleted c).entries
        ≡ (evict (drop_key key c).maximum_size ((drop_key key c).size + length value) queue).1
  unfolding put
  put-entries v = rw (moved v) refl

  put-size :
      IsValid c
      → (put key value timestamp deleted c).size
        ≡ (evict (drop_key key c).maximum_size ((drop_key key c).size + length value) queue).0
  unfolding put
  put-size v = rw (moved v) refl

  maximum_size-put : (put key value timestamp deleted c).maximum_size ≡ c.maximum_size
  unfolding put
  maximum_size-put = ground (arith, maximum_size-drop_key key c)

  -- On a valid cache a put leaves the old entries without the key and the new entry last, with the
  -- first n of these evicted, where n is the least number that brings the cache within its maximum;
  -- the byte count is the sum of the value lengths and within the maximum, which is unchanged.
  pub put_lem :
      IsValid c
      → (n : ℕ) × ((put key value timestamp deleted c).entries
          ≡ drop n (remove key c.entries ++ (key, version) ∷ []))
        × IsNeeded c.maximum_size (remove key c.entries ++ (key, version) ∷ []) n
        × ((put key value timestamp deleted c).size
            ≡ total_size (put key value timestamp deleted c).entries)
        × ((put key value timestamp deleted c).size ≤ c.maximum_size)
        × ((put key value timestamp deleted c).maximum_size ≡ c.maximum_size)
  put_lem v =
      let (n, e1, e2, l, needed) =
        evict_lem (drop_key key c).maximum_size ((drop_key key c).size + length value) queue
          (queue_size v) in
      (
        n,
        put-entries v ∙ e1,
        subst (λ m. IsNeeded m queue n) (maximum_size-drop_key key c) needed,
        put-size v ∙ (e2 ∙ ap total_size (sym e1 ∙ sym (put-entries v))),
        omega (arith, put-size v, e2, l, maximum_size-drop_key key c),
        maximum_size-put,
      )

  pub put-IsValid : IsValid c → IsValid (put key value timestamp deleted c)
  put-IsValid v =
      let (n, e1, _, e2, _, _) = put_lem v in
      record {
        distinct = rw e1 (
            drop-IsDistinct n queue (
              append-IsDistinct key version (remove key c.entries) (removed v)
                (removed-IsDistinct v)));
        counted = e2;
      }

  -- After a put on a valid cache the key has the new version exactly if its value alone fits the
  -- maximum; otherwise the cache does not have the key.
  pub lookup-put_self :
      IsValid c
      → lookup key (put key value timestamp deleted c).entries
        ≡ (if leb (length value) c.maximum_size then some version else none)
  lookup-put_self v = rw (put-entries v) (
      rw
        (evict_last (drop_key key c).maximum_size _ key version (remove key c.entries) (removed v)
          (queue_size v))
        (rw (maximum_size-drop_key key c) refl))

  -- After a put on a valid cache any other key is evicted or has the version it had before.
  pub lookup-put_ne :
      (j : Key)
      → IsValid c
      → key_eq key j ≡ false
      → (lookup j (put key value timestamp deleted c).entries ≡ none)
        ⊎ (lookup j (put key value timestamp deleted c).entries ≡ lookup j c.entries)
  lookup-put_ne j v h =
      let (n, e1, _, _, _, _) = put_lem v in
      let other : lookup {V = Version} j ((key, version) ∷ []) ≡ none =
        unfold lookup in rw h refl in
      let old : lookup j queue ≡ lookup j c.entries = ground (
        arith,
        lookup-append j (remove key c.entries) ((key, version) ∷ []),
        lookup-remove key j c.entries v.distinct,
        other,
      ) in
      rw e1
        (elim (lookup-drop j n queue (
          append-IsDistinct key version (remove key c.entries) (removed v)
            (removed-IsDistinct v))) [ inl p ↦ inl p | inr p ↦ inr (p ∙ old) ])

module _ (key : Key) (c : WriteThroughCache) where
  hit :
      (v : Version)
      → IsValid c
      → lookup key c.entries ≡ some v
      → (j : Key) → lookup j (remove key c.entries ++ (key, v) ∷ []) ≡ lookup j c.entries
  hit v h e j =
      rw
        (
          lookup-append j (remove key c.entries) ((key, v) ∷ []),
          lookup-remove key j c.entries h.distinct,
        )
        (unfold lookup in ground (arith, key_eq_iff key j))

  size_kept :
      (v : Version)
      → lookup key c.entries ≡ some v
      → total_size (remove key c.entries ++ (key, v) ∷ []) ≡ total_size c.entries
  unfolding total_size
  size_kept v e = omega (
    arith,
    total_size-append (remove key c.entries) ((key, v) ∷ []),
    total_size-remove key c.entries v e,
  )

  -- On a valid cache get returns what the cache has for the key and changes what no later get
  -- reads; a hit moves the key behind all others, a miss changes nothing; the invariant is kept.
  pub get_lem :
      IsValid c
      → ((get key c).0 ≡ lookup key c.entries)
        × ((j : Key) → lookup j (get key c).1.entries ≡ lookup j c.entries)
        × ((v : Version)
            → lookup key c.entries ≡ some v
            → (get key c).1.entries ≡ remove key c.entries ++ (key, v) ∷ [])
        × (lookup key c.entries ≡ none → (get key c).1 ≡ c)
        × IsValid (get key c).1
  unfolding get move_to_end
  get_lem h = elim (Option-cases (lookup key c.entries)) [
    | inl e ↦ rw (e, get) (refl, λ j. refl, λ v p. absurd (cc), λ _. refl, h)
    | inr (v, e) ↦
        let moved : move_to_end key c.entries ≡ remove key c.entries ++ (key, v) ∷ [] =
          rw (e, move_to_end) refl in
        rw (e, get)
          (
            refl,
            λ j. rw moved (hit v h e j),
            λ w p. rw moved (ground arith),
            λ p. absurd (cc),
            record {
              distinct = rw moved (
                  append-IsDistinct key v (remove key c.entries)
                    (rw (lookup-remove key key c.entries h.distinct) (rw (key_eq_refl key) refl))
                    (remove-IsDistinct key c.entries h.distinct));
              counted = rw moved (omega (arith, h.counted, size_kept v e));
            },
          )
  ]
