-- ===== src/Cache/Laws.antt =====
-- The byte count, the bound, and what a read after a write returns.
use yellowdb.Prelude.{
  ℕ, ◌+◌, ◌-◌, ◌≤◌, ◌<◌, ◌≡◌, refl, false, none, some, [], ◌∷◌, ◌++◌, length, ltb, arith,
  Option-cases, Bool-cases, inl, inr, drop, zero, suc,
}
use yellowdb.Text.{Key}
use yellowdb.Text.Order.{key_eq, key_eq_refl}
use yellowdb.Dict.{Dict, lookup, remove}
use yellowdb.Dict.Distinct.{IsDistinct, lookup-remove, remove-IsDistinct}
use yellowdb.Cache.Defs.{Version, WriteThroughCache, drop_key, evict}

-- the sum of the lengths of the values
unfoldable pub total_size : Dict Version → ℕ
total_size [] = 0
total_size ((k, v) ∷ d) = length v.value + total_size d

pub total_size-append : (d e : Dict Version) → total_size (d ++ e) ≡ total_size d + total_size e
unfolding total_size
total_size-append [] e = omega arith
total_size-append ((k, v) ∷ d) e = omega (arith, total_size-append d e)

pub total_size-remove :
    (k : Key) (d : Dict Version) (v : Version)
    → lookup k d ≡ some v
    → total_size (remove k d) + length v.value ≡ total_size d
unfolding total_size remove lookup
total_size-remove k [] v h = absurd (cc)
total_size-remove k ((j, w) ∷ d) v h = elim (Bool-cases (key_eq j k)) [
  | inl p ↦ let q : w ≡ v = ground arith in rw (p, q) (omega arith)
  | inr p ↦ rw p (omega (arith, total_size-remove k d v (ground arith)))
]

-- No key twice, and `_size` is the sum of the lengths of the values.
pub record IsValid (c : WriteThroughCache) : Type 0 where
  pub distinct : IsDistinct c.entries
  pub counted : c.size ≡ total_size c.entries

pub drop_key-IsValid :
    (key : Key) (c : WriteThroughCache)
    → IsValid c
    → IsValid (drop_key key c) × (lookup key (drop_key key c).entries ≡ none)
unfolding drop_key
drop_key-IsValid key c v = elim (Option-cases (lookup key c.entries)) [
  | inl e ↦ rw (e, drop_key) (v, e)
  | inr (x, e) ↦
      rw (e, drop_key)
        (
          record {
            distinct = remove-IsDistinct key c.entries v.distinct;
            counted = omega (arith, v.counted, total_size-remove key c.entries x e);
          },
          rw (lookup-remove key key c.entries v.distinct) (rw (key_eq_refl key) refl),
        )
]

pub maximum_size-drop_key :
    (key : Key) (c : WriteThroughCache) → (drop_key key c).maximum_size ≡ c.maximum_size
unfolding drop_key
maximum_size-drop_key key c = ground arith

pub lookup-drop_key_ne :
    (key j : Key) (c : WriteThroughCache)
    → IsValid c
    → key_eq key j ≡ false
    → lookup j (drop_key key c).entries ≡ lookup j c.entries
unfolding drop_key
lookup-drop_key_ne key j c v h = elim (Option-cases (lookup key c.entries)) [
  | inl e ↦ rw (e, drop_key) refl
  | inr (x, e) ↦ rw (e, drop_key) (rw (lookup-remove key j c.entries v.distinct) (rw h refl))
]

-- no fewer than `n` entries have to go: one less leaves too much
abbrev pub IsNeeded : ℕ → Dict Version → ℕ → Type 0
IsNeeded m d zero = Unit
IsNeeded m d (suc n) = m < total_size (drop n d)

IsNeeded-cons :
    (m : ℕ) (k : Key) (v : Version) (d : Dict Version) (n : ℕ)
    → m < total_size ((k, v) ∷ d)
    → IsNeeded m d n
    → m < total_size (drop n ((k, v) ∷ d))
IsNeeded-cons m k v d zero over needed = over
IsNeeded-cons m k v d (suc n) over needed = needed

-- The loop drops entries from the front: `n` of them, down to the bound, and no more than needed.
pub evict_lem :
    (m size : ℕ) (d : Dict Version)
    → size ≡ total_size d
    → (n : ℕ) × ((evict m size d).1 ≡ drop n d)
      × ((evict m size d).0 ≡ total_size (drop n d))
      × (total_size (drop n d) ≤ m)
      × IsNeeded m d n
unfolding evict total_size
evict_lem m size [] e = (0, refl, e, omega arith, tt)
evict_lem m size ((k, v) ∷ d) e = elim (Bool-cases (ltb m size)) [
  | inl p ↦
      let (n, e1, e2, l, needed) = evict_lem m (size - length v.value) d (omega arith) in
      let over : m < total_size ((k, v) ∷ d) = ground (arith, e) in
      (suc n, rw p e1, rw p e2, l, IsNeeded-cons m k v d n over needed)
  | inr p ↦ (0, rw p refl, rw p e, ground arith, tt)
]

pub drop-IsDistinct : (n : ℕ) (d : Dict Version) → IsDistinct d → IsDistinct (drop n d)
drop-IsDistinct zero d s = s
drop-IsDistinct (suc n) [] s = s
drop-IsDistinct (suc n) ((k, v) ∷ d) s = drop-IsDistinct n d s.1
