-- ===== src/Dict/Distinct.antt =====
-- Dictionaries hold no key twice, and what follows from it.
use yellowdb.Prelude.{
  ◌≡◌, refl, Option, none, some, [], ◌∷◌, ◌++◌, arith, if◌then◌else◌, Bool-cases, inl, inr,
}
use yellowdb.Text.{Key}
use yellowdb.Text.Order.{key_eq, key_eq_iff}
use yellowdb.Dict.{Dict, lookup, insert, remove, lookup-insert}

module _ {ℓ} {V : Type ℓ} where
  abbrev pub IsDistinct : Dict V → Type ℓ
  IsDistinct [] = Unit
  IsDistinct ((k, v) ∷ d) = (lookup k d ≡ none) × IsDistinct d

  -- the first of the two that is there
  abbrev pub or_else : Option V → Option V → Option V
  or_else none o = o
  or_else (some v) o = some v

  pub lookup-append :
      (k : Key) (d e : Dict V) → lookup k (d ++ e) ≡ or_else (lookup k d) (lookup k e)
  unfolding lookup
  lookup-append k [] e = refl
  lookup-append k ((j, v) ∷ d) e = ground (arith, lookup-append k d e)

  pub lookup-remove :
      (k j : Key) (d : Dict V)
      → IsDistinct d
      → lookup j (remove k d) ≡ (if key_eq k j then none else lookup j d)
  unfolding lookup remove
  lookup-remove k j [] s = ground arith
  lookup-remove k j ((i, v) ∷ d) s =
      ground (arith, lookup-remove k j d s.1, key_eq_iff k j, key_eq_iff i j, key_eq_iff i k, s.0)

  pub remove-IsDistinct : (k : Key) (d : Dict V) → IsDistinct d → IsDistinct (remove k d)
  unfolding remove
  remove-IsDistinct k [] s = tt
  remove-IsDistinct k ((i, v) ∷ d) s = elim (Bool-cases (key_eq i k)) [
    | inl p ↦ rw p (s.1)
    | inr p ↦ rw p (ground (arith, lookup-remove k i d s.1), remove-IsDistinct k d s.1)
  ]

  pub append-IsDistinct :
      (k : Key) (v : V) (d : Dict V)
      → lookup k d ≡ none
      → IsDistinct d
      → IsDistinct (d ++ (k, v) ∷ [])
  unfolding lookup
  append-IsDistinct k v [] h s = (refl, tt)
  append-IsDistinct k v ((i, w) ∷ d) h s = (
    ground (arith, lookup-append i d ((k, v) ∷ []), key_eq_iff i k, key_eq_iff k i),
    append-IsDistinct k v d (ground arith) s.1,
  )

  pub insert_absent :
      (k : Key) (v : V) (d : Dict V) → lookup k d ≡ none → insert k v d ≡ d ++ (k, v) ∷ []
  unfolding lookup insert
  insert_absent k v [] h = refl
  insert_absent k v ((i, w) ∷ d) h = ground (arith, insert_absent k v d)

  pub insert-IsDistinct : (k : Key) (v : V) (d : Dict V) → IsDistinct d → IsDistinct (insert k v d)
  unfolding insert lookup
  insert-IsDistinct k v [] s = (refl, tt)
  insert-IsDistinct k v ((i, w) ∷ d) s = elim (Bool-cases (key_eq i k)) [
    | inl q ↦ rw q s
    | inr q ↦ rw q (
      ground (arith, lookup-insert k i v d, key_eq_iff i k, key_eq_iff k i, s.0),
      insert-IsDistinct k v d s.1,
    )
  ]
