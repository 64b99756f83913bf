-- ===== src/Cache/Queue.antt =====
-- The entries in the order of their use, with the newest one last.
use yellowdb.Prelude.{
  ℕ, ◌-◌, ◌≡◌, refl, ◌∙◌, ◌⊎◌, none, some, [], ◌∷◌, ◌++◌, length, ltb, leb, arith, Bool-cases, inl,
  inr, if◌then◌else◌, drop, zero, suc,
}
use yellowdb.Text.{Key}
use yellowdb.Text.Order.{key_eq, key_eq_iff, key_eq_refl}
use yellowdb.Dict.{Dict, lookup, insert, remove}
use yellowdb.Dict.Distinct.{IsDistinct, lookup-append, insert_absent}
use yellowdb.Cache.Defs.{Version, move_to_end, evict}
use yellowdb.Cache.Laws.{total_size, total_size-append}

remove-append :
    (k : Key) (v : Version) (d : Dict Version) → lookup k d ≡ none → remove k (d ++ (k, v) ∷ []) ≡ d
unfolding lookup remove
remove-append k v [] h = rw (key_eq_refl k) refl
remove-append k v ((j, w) ∷ d) h = ground (arith, remove-append k v d)

pub remove_absent : (k : Key) (d : Dict Version) → lookup k d ≡ none → remove k d ≡ d
unfolding lookup remove
remove_absent k [] h = refl
remove_absent k ((j, w) ∷ d) h = ground (arith, remove_absent k d)

lookup_last :
    (k : Key) (v : Version) (d : Dict Version)
    → lookup k d ≡ none
    → lookup k (d ++ (k, v) ∷ []) ≡ some v
unfolding lookup
lookup_last k v d h = rw (lookup-append k d ((k, v) ∷ []), h) (rw (key_eq_refl k) refl)

-- a new key is the most recently used one
pub move_to_end-insert :
    (k : Key) (v : Version) (d : Dict Version)
    → lookup k d ≡ none
    → move_to_end k (insert k v d) ≡ d ++ (k, v) ∷ []
unfolding move_to_end
move_to_end-insert k v d h =
    rw (insert_absent k v d h)
      (rw (lookup_last k v d h, move_to_end) (rw (remove-append k v d h) refl))

-- the newest entry survives exactly if it fits alone
pub evict_last :
    (m size : ℕ) (k : Key) (v : Version) (d : Dict Version)
    → lookup k d ≡ none
    → size ≡ total_size (d ++ (k, v) ∷ [])
    → lookup k (evict m size (d ++ (k, v) ∷ [])).1
      ≡ (if leb (length v.value) m then some v else none)
unfolding evict total_size lookup
evict_last m size k v [] h e = ground (arith, key_eq_refl k)
evict_last m size k v ((j, w) ∷ d) h e = elim (Bool-cases (ltb m size)) [
  | inl p ↦ rw p (evict_last m (size - length w.value) k v d (ground arith) (omega arith))
  | inr p ↦
      rw p (ground (arith, lookup_last k v d, total_size-append d ((k, v) ∷ []), key_eq_iff j k))
]

pub lookup-drop :
    (j : Key) (n : ℕ) (d : Dict Version)
    → IsDistinct d
    → (lookup j (drop n d) ≡ none) ⊎ (lookup j (drop n d) ≡ lookup j d)
unfolding lookup
lookup-drop j zero d s = inr refl
lookup-drop j (suc n) [] s = inr refl
lookup-drop j (suc n) ((k, v) ∷ d) s = elim (lookup-drop j n d s.1) [
  | inl e ↦ inl e
  | inr e ↦ elim (Bool-cases (key_eq k j)) [
    | inl p ↦ inl (e ∙ rw (← (key_eq_iff k j).0 p) s.0)
    | inr p ↦ inr (rw p e)
  ]
]
