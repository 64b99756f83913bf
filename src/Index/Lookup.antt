-- ===== src/Index/Lookup.antt =====
-- What `get_offset` returns.
use yellowdb.Prelude.{
  ℕ, suc, ◌≡◌, refl, true, false, some, arith, length, ltb, Bool-cases, inl, inr, ◌⊎◌, ◌==◌,
}
use yellowdb.Errors.{ok, ◌>>=◌}
use yellowdb.Text.{Key, Bytes}
use yellowdb.Text.Order.{key_le}
use yellowdb.Dict.{lookup}
use yellowdb.Items.{item}
use yellowdb.Index.Defs.{SparseIndex, get_offset, might_contain}
use yellowdb.Index.Laws.{IsValid}
use yellowdb.Index.Search.{has-item, item-IsAscending, Stands, Stands-start, search_lem}

-- `o` is the offset of the greatest indexed key that is not greater than `key`, or 0 if every
-- indexed key is greater.
abbrev pub IsFloor : SparseIndex → Key → ℕ → Type 0
IsFloor ix key o =
    ((o ≡ 0) × ((k : Key) (p : ℕ) → lookup k ix.keys ≡ some p → key_le k key ≡ false))
    ⊎ ((x : Key) × (lookup x ix.keys ≡ some o)
        × (key_le x key ≡ true)
        × ((k : Key) (p : ℕ) → lookup k ix.keys ≡ some p → key_le k key ≡ true → key_le k x ≡ true))

module _ (ix : SparseIndex) (key : Key) where
  item-key :
      (v : IsValid ix) (k : Key) (p : ℕ)
      → lookup k ix.keys ≡ some p
      → (i : ℕ) × (item i ix.sorted_keys ≡ ok k)
  item-key v k p h = let e = v.same k in has-item k ix.sorted_keys (rw h at e)

  Stands-IsFloor : (v : IsValid ix) (p o : ℕ) → Stands ix key p p o → IsFloor ix key o
  Stands-IsFloor v p o s = elim s.offset_at [
    | inl (e, z) ↦ inl (z, λ k q h. let (i, at) = item-key v k q h in s.upper i at (omega arith))
    | inr (i, x, e, at, l) ↦ inr (
      x,
      l,
      s.lower i at (omega arith),
      λ k q h le.
          let (j, at') = item-key v k q h in
          elim (Bool-cases (ltb j p)) [
            | inl b ↦ item-IsAscending ix.sorted_keys j i v.ascending (ground arith) at' at
            | inr b ↦ let u = s.upper j at' (ground arith) in absurd (cc)
          ],
    )
  ]

  module _ (md5 : Bytes → ℕ) where
    -- When might_contain returns True on a valid index, the binary search of get_offset ends and
    -- returns the offset of the greatest indexed key that is not greater than the key, or 0 if
    -- there is none.
    pub get_offset_lem :
        IsValid ix
        → might_contain md5 key ix ≡ ok true
        → (o : ℕ) × (get_offset md5 key ix ≡ ok (some o)) × IsFloor ix key o
    unfolding get_offset
    get_offset_lem v h = elim (Bool-cases (length ix.sorted_keys == 0)) [
      | inl e ↦
          let l : length ix.sorted_keys ≡ 0 = ground arith in
          let s = Stands-start ix key in
          (0, rw (h, get_offset, ◌>>=◌, e) refl, Stands-IsFloor v 0 0 (rw l at s))
      | inr e ↦
          let (p, o, g, t) =
            search_lem ix key v (suc (length ix.sorted_keys)) 0 (length ix.sorted_keys) 0
              (Stands-start ix key) (omega arith) in
          (o, rw (h, get_offset, ◌>>=◌, e, g) refl, Stands-IsFloor v p o t)
    ]
