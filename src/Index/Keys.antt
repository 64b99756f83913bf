-- ===== src/Index/Keys.antt =====
-- Lists of keys: `in` and `list.sort`.
use yellowdb.Prelude.{
  ◌≡◌, refl, Bool, true, false, ◌||◌, List, [], ◌∷◌, ◌++◌, All, arith, if◌then◌else◌, Bool-cases,
  inl, inr,
}
use yellowdb.Text.{Key}
use yellowdb.Text.Order.{
  key_le, key_eq, key_lt, key_lt_asymm, key_lt_trans, key_eq_iff, key_lt_total,
}

-- key in keys
unfoldable pub has : Key → List Key → Bool
has k [] = false
has k (j ∷ js) = let rest = has k js in if key_eq j k then true else rest

-- behind the keys that are not greater
unfoldable pub place : Key → List Key → List Key
place k [] = k ∷ []
place k (j ∷ js) = let rest = place k js in if key_lt k j then k ∷ j ∷ js else j ∷ rest

-- keys.sort()
unfoldable pub sort : List Key → List Key
sort [] = []
sort (k ∷ ks) = place k (sort ks)

abbrev pub AtLeast : Key → List Key → Type 0
AtLeast k = All (λ j. key_le k j ≡ true)

abbrev pub IsAscending : List Key → Type 0
IsAscending [] = Unit
IsAscending (k ∷ ks) = AtLeast k ks × IsAscending ks

pub key_le_trans : (a b c : Key) → key_le a b ≡ true → key_le b c ≡ true → key_le a c ≡ true
key_le_trans a b c h k = ground (arith, key_lt_total b a, key_lt_trans c a b, key_eq_iff b a)

AtLeast-place :
    (i k : Key) (ks : List Key) → key_le i k ≡ true → AtLeast i ks → AtLeast i (place k ks)
unfolding place
AtLeast-place i k [] h a = (h, tt)
AtLeast-place i k (j ∷ js) h a = elim (Bool-cases (key_lt k j)) [
  | inl p ↦ rw p (h, a)
  | inr p ↦ rw p (a.0, AtLeast-place i k js h a.1)
]

AtLeast-trans : (i k : Key) (ks : List Key) → key_le i k ≡ true → AtLeast k ks → AtLeast i ks
AtLeast-trans i k [] h a = tt
AtLeast-trans i k (j ∷ js) h a = (key_le_trans i k j h a.0, AtLeast-trans i k js h a.1)

place-IsAscending : (k : Key) (ks : List Key) → IsAscending ks → IsAscending (place k ks)
unfolding place
place-IsAscending k [] s = (tt, tt)
place-IsAscending k (j ∷ js) s = elim (Bool-cases (key_lt k j)) [
  | inl p ↦
      let le : key_le k j ≡ true = ground (arith, key_lt_asymm k j) in
      rw p ((le, AtLeast-trans k j js le s.0), s)
  | inr p ↦ rw p (AtLeast-place j k js (ground arith) s.0, place-IsAscending k js s.1)
]

pub sort-IsAscending : (ks : List Key) → IsAscending (sort ks)
unfolding sort
sort-IsAscending [] = tt
sort-IsAscending (k ∷ ks) = place-IsAscending k (sort ks) (sort-IsAscending ks)

has-place : (i k : Key) (ks : List Key) → has i (place k ks) ≡ (key_eq k i || has i ks)
unfolding has place
has-place i k [] = ground arith
has-place i k (j ∷ js) = ground (arith, has-place i k js)

has-sort : (i : Key) (ks : List Key) → has i (sort ks) ≡ has i ks
unfolding has sort
has-sort i [] = refl
has-sort i (k ∷ ks) = ground (arith, has-place i k (sort ks), has-sort i ks)

has-append : (i k : Key) (ks : List Key) → has i (ks ++ k ∷ []) ≡ (has i ks || key_eq k i)
unfolding has
has-append i k [] = ground arith
has-append i k (j ∷ js) = ground (arith, has-append i k js)

-- A key appended and sorted in is there beside those that were.
pub has-sort_append :
    (i k : Key) (ks : List Key) → has i (sort (ks ++ k ∷ [])) ≡ (has i ks || key_eq k i)
has-sort_append i k ks = rw (has-sort i (ks ++ k ∷ []), has-append i k ks) refl
