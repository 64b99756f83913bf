-- ===== src/Memtable/Sorted.antt =====
-- Lists of pairs in strictly increasing order of their keys.
use yellowdb.Prelude.{
  ◌≡◌, refl, true, ◌&&◌, none, some, [], ◌∷◌, arith, if◌then◌else◌, Bool-cases, inl, inr,
}
use yellowdb.Text.{Key}
use yellowdb.Text.Order.{
  key_lt, key_le, key_eq, key_eq_iff, key_lt_irrefl, key_lt_trans, key_lt_total,
}
use yellowdb.Dict.{Dict, lookup}

module _ {ℓ} {V : Type ℓ} where
  -- every key is above `k`
  abbrev pub IsAbove : Key → Dict V → Type 0
  IsAbove k [] = Unit
  IsAbove k ((j, v) ∷ d) = (key_lt k j ≡ true) × IsAbove k d

  abbrev pub IsSorted : Dict V → Type 0
  IsSorted [] = Unit
  IsSorted ((k, v) ∷ d) = IsAbove k d × IsSorted d

  unfoldable pub insert_sorted : Key → V → Dict V → Dict V
  insert_sorted k v [] = (k, v) ∷ []
  insert_sorted k v ((j, w) ∷ d) =
      let rest = (j, w) ∷ insert_sorted k v d in
      if key_lt k j then (k, v) ∷ (j, w) ∷ d else if key_eq k j then (k, v) ∷ d else rest

  -- the pairs with `lo <= key <= hi`
  unfoldable pub between : Key → Key → Dict V → Dict V
  between lo hi [] = []
  between lo hi ((k, v) ∷ d) =
      let rest = between lo hi d in if key_le lo k && key_le k hi then (k, v) ∷ rest else rest

  pub IsAbove-trans : (i j : Key) (d : Dict V) → key_lt i j ≡ true → IsAbove j d → IsAbove i d
  IsAbove-trans i j [] h a = tt
  IsAbove-trans i j ((k, v) ∷ d) h a = (key_lt_trans i j k h a.0, IsAbove-trans i j d h a.1)

  IsAbove-insert_sorted :
      (i k : Key) (v : V) (d : Dict V)
      → key_lt i k ≡ true
      → IsAbove i d
      → IsAbove i (insert_sorted k v d)
  unfolding insert_sorted
  IsAbove-insert_sorted i k v [] h a = (h, tt)
  IsAbove-insert_sorted i k v ((j, w) ∷ d) h a = elim (Bool-cases (key_lt k j)) [
    | inl p ↦ rw p (h, a)
    | inr p ↦ rw p (elim (Bool-cases (key_eq k j)) [
      | inl q ↦ rw q (h, a.1)
      | inr q ↦ rw q (a.0, IsAbove-insert_sorted i k v d h a.1)
    ])
  ]

  -- An insertion keeps the order.
  pub insert_sorted-IsSorted :
      (k : Key) (v : V) (d : Dict V) → IsSorted d → IsSorted (insert_sorted k v d)
  unfolding insert_sorted
  insert_sorted-IsSorted k v [] s = (tt, tt)
  insert_sorted-IsSorted k v ((j, w) ∷ d) s = elim (Bool-cases (key_lt k j)) [
    | inl p ↦ rw p ((p, IsAbove-trans k j d p s.0), s)
    | inr p ↦ rw p (elim (Bool-cases (key_eq k j)) [
      | inl q ↦ rw q (let e = (key_eq_iff k j).0 q in rw e s)
      | inr q ↦ rw q (
        IsAbove-insert_sorted j k v d (key_lt_total k j p q) s.0,
        insert_sorted-IsSorted k v d s.1,
      )
    ])
  ]

  pub lookup-insert_sorted :
      (k i : Key) (v : V) (d : Dict V)
      → lookup i (insert_sorted k v d) ≡ (if key_eq k i then some v else lookup i d)
  unfolding lookup insert_sorted
  lookup-insert_sorted k i v [] = refl
  lookup-insert_sorted k i v ((j, w) ∷ d) =
      ground (arith, key_eq_iff k i, key_eq_iff j i, key_eq_iff k j, lookup-insert_sorted k i v d)

  pub lookup-IsAbove : (k : Key) (d : Dict V) → IsAbove k d → lookup k d ≡ none
  unfolding lookup
  lookup-IsAbove k [] a = refl
  lookup-IsAbove k ((j, v) ∷ d) a =
      ground (arith, key_eq_iff j k, key_lt_irrefl k, lookup-IsAbove k d a.1)

  IsAbove-between : (i lo hi : Key) (d : Dict V) → IsAbove i d → IsAbove i (between lo hi d)
  unfolding between
  IsAbove-between i lo hi [] a = tt
  IsAbove-between i lo hi ((k, v) ∷ d) a = elim (Bool-cases (key_le lo k && key_le k hi)) [
    | inl p ↦ rw p (a.0, IsAbove-between i lo hi d a.1)
    | inr p ↦ rw p (IsAbove-between i lo hi d a.1)
  ]

  pub between-IsSorted : (lo hi : Key) (d : Dict V) → IsSorted d → IsSorted (between lo hi d)
  unfolding between
  between-IsSorted lo hi [] s = tt
  between-IsSorted lo hi ((k, v) ∷ d) s = elim (Bool-cases (key_le lo k && key_le k hi)) [
    | inl p ↦ rw p (IsAbove-between k lo hi d s.0, between-IsSorted lo hi d s.1)
    | inr p ↦ rw p (between-IsSorted lo hi d s.1)
  ]

  -- The pairs of a range are found where they were, and no others.
  pub lookup-between :
      (lo hi i : Key) (d : Dict V)
      → IsSorted d
      → lookup i (between lo hi d) ≡ (if key_le lo i && key_le i hi then lookup i d else none)
  unfolding lookup between
  lookup-between lo hi i [] s = ground arith
  lookup-between lo hi i ((k, v) ∷ d) s =
      ground (arith, key_eq_iff k i, lookup-between lo hi i d s.1, lookup-IsAbove k d s.0)
