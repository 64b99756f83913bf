-- ===== src/Dict.antt =====
-- Python's `dict` with string keys: pairs in insertion order. An assignment to a key that is there
-- keeps its place, a new key goes to the end.
pub mod Distinct
use yellowdb.Prelude.{
  ◌≡◌, refl, Bool, true, false, Option, none, some, List, [], ◌∷◌, arith, if◌then◌else◌, ◌↔◌, ap,
  map,
}
use yellowdb.Text.{Key}
use yellowdb.Text.Order.{key_eq, key_eq_iff, key_eq_refl}

abbrev pub Dict {ℓ} : Type ℓ → Type ℓ
Dict V = List (Key × V)

module _ {ℓ} {V : Type ℓ} where
  -- d.get(k)
  unfoldable pub lookup : Key → Dict V → Option V
  lookup k [] = none
  lookup k ((j, v) ∷ d) = if key_eq j k then some v else lookup k d

  -- d[k] = v
  unfoldable pub insert : Key → V → Dict V → Dict V
  insert k v [] = (k, v) ∷ []
  insert k v ((j, w) ∷ d) = if key_eq j k then (j, v) ∷ d else (j, w) ∷ insert k v d

  -- del d[k]
  unfoldable pub remove : Key → Dict V → Dict V
  remove k [] = []
  remove k ((j, w) ∷ d) = if key_eq j k then d else (j, w) ∷ remove k d

  -- k in d
  unfoldable pub contains : Key → Dict V → Bool
  contains k [] = false
  contains k ((j, w) ∷ d) = if key_eq j k then true else contains k d

  pub lookup-insert :
      (k j : Key) (v : V) (d : Dict V)
      → lookup j (insert k v d) ≡ (if key_eq k j then some v else lookup j d)
  unfolding lookup insert
  lookup-insert k j v [] = refl
  lookup-insert k j v ((i, w) ∷ d) =
      ground (arith, key_eq_iff k j, key_eq_iff i k, key_eq_iff i j, lookup-insert k j v d)

  pub lookup-insert_self : (k : Key) (v : V) (d : Dict V) → lookup k (insert k v d) ≡ some v
  lookup-insert_self k v d = rw (lookup-insert k k v d, key_eq_refl k) refl
