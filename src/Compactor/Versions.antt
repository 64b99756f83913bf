-- ===== src/Compactor/Versions.antt =====
-- The versions of a key among entries: the newest and the first.
use yellowdb.Prelude.{
  ℕ, suc, ◌≡◌, refl, true, false, Option, none, some, List, [], ◌∷◌, All, if◌then◌else◌, Bool-cases,
  inl, inr, ◌⊎◌, ◌++◌, ◌↔◌, zero,
}
use yellowdb.Errors.{ok}
use yellowdb.Text.{Key}
use yellowdb.Text.Order.{key_eq, key_eq_iff}
use yellowdb.Dict.Distinct.{or_else}
use yellowdb.Items.{item}
use yellowdb.Cache.Defs.{Version}
use yellowdb.Wal.Recover.{Entry}
use yellowdb.Compactor.Merge.{version, is_newer}

-- no entry for the key is newer
abbrev pub Covers : Key → List Entry → Option Version → Type 0
Covers k es r = All (λ e. key_eq e.key k ≡ true → is_newer r e ≡ false) es

-- one of the entries for the key
abbrev pub Occurs : Key → List Entry → Option Version → Type 0
Occurs k es r = (i : ℕ) × (e : Entry) × (item i es ≡ ok e) × (e.key ≡ k) × (r ≡ some (version e))

-- `r` is the newest of the entries for the key, or `none` if there is no entry for it.
abbrev pub IsNewest : Key → List Entry → Option Version → Type 0
IsNewest k es r = Covers k es r × ((r ≡ none) ⊎ Occurs k es r)

-- the first entry for the key
unfoldable pub first : Key → List Entry → Option Version
first k [] = none
first k (e ∷ es) = let rest = first k es in if key_eq e.key k then some (version e) else rest

item-append_left :
    (i : ℕ) (es fs : List Entry) {e : Entry} → item i es ≡ ok e → item i (es ++ fs) ≡ ok e
unfolding item
item-append_left i [] fs h = absurd (cc)
item-append_left zero (x ∷ es) fs h = h
item-append_left (suc i) (x ∷ es) fs h = item-append_left i es fs h

Occurs-left :
    (k : Key) (es fs : List Entry) (r : Option Version) → Occurs k es r → Occurs k (es ++ fs) r
Occurs-left k es fs r (i, e, at, same, q) = (i, e, item-append_left i es fs at, same, q)

Occurs-right :
    (k : Key) (es fs : List Entry) (r : Option Version) → Occurs k fs r → Occurs k (es ++ fs) r
unfolding item
Occurs-right k [] fs r o = o
Occurs-right k (x ∷ es) fs r o =
    let (i, e, at, same, q) = Occurs-right k es fs r o in (suc i, e, at, same, q)

Covers-append :
    (k : Key) (es fs : List Entry) (r : Option Version)
    → Covers k es r
    → Covers k fs r
    → Covers k (es ++ fs) r
Covers-append k [] fs r a b = b
Covers-append k (e ∷ es) fs r (x, a) b = (x, Covers-append k es fs r a b)

Covers-right :
    (k : Key) (es fs : List Entry) (r : Option Version) → Covers k (es ++ fs) r → Covers k fs r
Covers-right k [] fs r a = a
Covers-right k (e ∷ es) fs r (x, a) = Covers-right k es fs r a

first-Occurs : (k : Key) (es : List Entry) → (first k es ≡ none) ⊎ Occurs k es (first k es)
unfolding first item
first-Occurs k [] = inl refl
first-Occurs k (e ∷ es) = elim (Bool-cases (key_eq e.key k)) [
  | inl p ↦ inr (0, e, refl, (key_eq_iff e.key k).0 p, rw p refl)
  | inr p ↦ elim (first-Occurs k es) [
    | inl q ↦ inl (rw p q)
    | inr (i, x, at, same, q) ↦ inr (suc i, x, at, same, rw p q)
  ]
]

-- where there is no entry for the key, anything is the newest
Covers-none : (k : Key) (es : List Entry) (o : Option Version) → Covers k es none → Covers k es o
unfolding is_newer
Covers-none k [] o a = tt
Covers-none k (e ∷ es) o (x, a) = (λ h. absurd (let y = x h in cc), Covers-none k es o a)

-- The first entry of `fs`, where `es` has none, is the newest of both exactly if `fs` has no newer
-- one.
pub or_else-IsNewest :
    (k : Key) (es fs : List Entry) (r : Option Version)
    → IsNewest k es r
    → IsNewest k (es ++ fs) (or_else r (first k fs)) ↔ Covers k fs (or_else r (first k fs))
or_else-IsNewest k es fs none (a, _) = (
  λ n. Covers-right k es fs (first k fs) n.0,
  λ b. (
    Covers-append k es fs (first k fs) (Covers-none k es (first k fs) a) b,
    elim (first-Occurs k fs) [ inl q ↦ inl q | inr o ↦ inr (Occurs-right k es fs (first k fs) o) ],
  ),
)
or_else-IsNewest k es fs (some v) (a, o) = (
  λ n. Covers-right k es fs (some v) n.0,
  λ b. (
    Covers-append k es fs (some v) a b,
    elim o [ inl q ↦ absurd (cc) | inr x ↦ inr (Occurs-left k es fs (some v) x) ],
  ),
)
