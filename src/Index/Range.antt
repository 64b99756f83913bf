-- ===== src/Index/Range.antt =====
-- The offset from which a range query reads: `get_key_range`.
use yellowdb.Prelude.{
  ℕ, zero, suc, ◌+◌, ◌≤◌, ◌<◌, ◌≡◌, refl, ap, ◌∙◌, true, false, some, List, [], ◌∷◌, length, arith,
  ◌⊎◌, inl, inr, Bool-cases, Option-cases,
}
use yellowdb.Errors.{Result, ok, ◌>>=◌}
use yellowdb.Text.{Key}
use yellowdb.Text.Order.{key_eq, key_eq_iff, key_le}
use yellowdb.Dict.{lookup}
use yellowdb.Items.{item, item-ok}
use yellowdb.Index.Keys.{has, IsAscending}
use yellowdb.Index.Defs.{SparseIndex, first_at_least, first_above, offset_or_0, get_key_range}
use yellowdb.Index.Laws.{IsValid, is_some}
use yellowdb.Index.Search.{item-IsAscending, item-has, has-item}

List-cases : (ks : List Key) → (ks ≡ []) ⊎ ((j : Key) × (js : List Key) × (ks ≡ j ∷ js))
List-cases [] = inl refl
List-cases (j ∷ js) = inr (j, js, refl)

first_above_le : (end_key : Key) (ks : List Key) → first_above end_key ks ≤ length ks
unfolding first_above
first_above_le end_key [] = omega arith
first_above_le end_key (k ∷ ks) = ground (arith, first_above_le end_key ks)

-- the first key from `start_key` on, or that there is none
abbrev First : Key → List Key → ℕ → ℕ → Type 0
First start_key ks i r =
    ((n : ℕ) × (x : Key) × (r ≡ n + i)
      × (item n ks ≡ ok x)
      × (key_le start_key x ≡ true)
      × ((k : Key) → has k ks ≡ true → key_le start_key k ≡ true → key_le x k ≡ true))
    ⊎ ((r ≡ 0) × ((k : Key) → has k ks ≡ true → key_le start_key k ≡ false))

first_at_least_lem :
    (start_key : Key) (ks : List Key) (i : ℕ)
    → IsAscending ks
    → First start_key ks i (first_at_least start_key ks i)
unfolding first_at_least item has
first_at_least_lem start_key [] i s = inr (refl, λ k h. absurd (cc))
first_at_least_lem start_key (k ∷ ks) i s = elim (Bool-cases (key_le start_key k)) [
  | inl p ↦ rw p (
      inl (
        0,
        k,
        omega arith,
        refl,
        p,
        λ j h le.
            let (m, at) = has-item j (k ∷ ks) h in
            item-IsAscending (k ∷ ks) 0 m s (omega arith) refl at,
      ))
  | inr p ↦ rw p (elim (first_at_least_lem start_key ks (i + 1) s.1) [
    | inl (n, x, e, at, le, least) ↦ inl (
      suc n,
      x,
      omega (arith, e),
      at,
      le,
      λ j h l. elim (Bool-cases (key_eq k j)) [
        | inl q ↦ let same : k ≡ j = (key_eq_iff k j).0 q in absurd (let p' = rw same at p in cc)
        | inr q ↦ let h' = rw q at h in least j h' l
      ],
    )
    | inr (e, none_left) ↦ inr (
      e,
      λ j h. elim (Bool-cases (key_eq k j)) [
        | inl q ↦ let same : k ≡ j = (key_eq_iff k j).0 q in rw (← same) p
        | inr q ↦ let h' = rw q at h in none_left j h'
      ],
    )
  ])
]

module _ (ix : SparseIndex) (v : IsValid ix) where
  item-lookup :
      (i : ℕ) (x : Key) → item i ix.sorted_keys ≡ ok x → (o : ℕ) × (lookup x ix.keys ≡ some o)
  item-lookup i x h = elim (Option-cases (lookup x ix.keys)) [
    | inl n ↦
        let same = v.same x in
        let here = item-has ix.sorted_keys i h in let same' = rw n at same in absurd (cc)
    | inr (o, l) ↦ (o, l)
  ]

  pub lookup-has : (x : Key) (o : ℕ) → lookup x ix.keys ≡ some o → has x ix.sorted_keys ≡ true
  lookup-has x o l = v.same x ∙ ap is_some l

  -- `x` is the least key from `start_key` on, or there is none
  abbrev pub IsLeastFrom : Key → Key → Type 0
  IsLeastFrom start_key x =
      ((key_le start_key x ≡ true)
        × ((k : Key) → has k ix.sorted_keys ≡ true → key_le start_key k ≡ true → key_le x k ≡ true))
      ⊎ ((k : Key) → has k ix.sorted_keys ≡ true → key_le start_key k ≡ false)

  -- what `get_key_range` gives for an index that has keys
  abbrev pub Start : Key → ℕ → Type 0
  Start start_key o = (x : Key) × (lookup x ix.keys ≡ some o) × IsLeastFrom start_key x

  first-Start :
      (start_key : Key)
      → 0 < length ix.sorted_keys
      → (first : Key) × (item (first_at_least start_key ix.sorted_keys 0) ix.sorted_keys ≡ ok first)
        × Start start_key (offset_or_0 ix.keys first)
  unfolding offset_or_0
  first-Start start_key some_key =
      elim (first_at_least_lem start_key ix.sorted_keys 0 v.ascending) [
        | inl (n, x, e, at, le, least) ↦
            let (o, l) = item-lookup n x at in
            let m : first_at_least start_key ix.sorted_keys 0 ≡ n = omega (arith, e) in
            (x, rw m at, (x, rw (l, offset_or_0) refl, inl (le, least)))
        | inr (e, none_left) ↦
            let (x, at) = item-ok 0 ix.sorted_keys some_key in
            let (o, l) = item-lookup 0 x at in
            (x, rw e at, (x, rw (l, offset_or_0) refl, inr none_left))
      ]

  -- the end of the range, which no caller uses
  end_offset :
      (n o : ℕ) (ks : List Key)
      → n ≤ length ks
      → (last : ℕ) × ((elim n as (λ _. Result (ℕ × ℕ)) [
        | zero ↦ ok (o, 0)
        | suc i ↦ item i ks >>= λ k. ok (o, offset_or_0 ix.keys k)
      ])
          ≡ ok (o, last))
  end_offset zero o ks h = (0, refl)
  end_offset (suc i) o ks h =
      let (k, at) = item-ok i ks (omega arith) in (offset_or_0 ix.keys k, rw at refl)

  -- `get_key_range` by what its two reads of the list give
  get_key_range-cons :
      (start_key end_key k : Key) (ks : List Key) (first : Key) (last : ℕ)
      → ix.sorted_keys ≡ k ∷ ks
      → item (first_at_least start_key ix.sorted_keys 0) ix.sorted_keys ≡ ok first
      → (elim (first_above end_key ix.sorted_keys) as (λ _. Result (ℕ × ℕ)) [
        | zero ↦ ok (offset_or_0 ix.keys first, 0)
        | suc i ↦
            item i ix.sorted_keys >>= λ x. ok (offset_or_0 ix.keys first, offset_or_0 ix.keys x)
      ])
        ≡ ok (offset_or_0 ix.keys first, last)
      → get_key_range start_key end_key ix ≡ ok (offset_or_0 ix.keys first, last)
  unfolding get_key_range
  get_key_range-cons start_key end_key k ks first last e at q = rw (e, get_key_range) (rw at q)

  -- get_key_range does not raise; without keys it gives 0, and otherwise the offset of the first
  -- indexed key from start_key on, if there is one.
  pub get_key_range_lem :
      (start_key end_key : Key)
      → (o : ℕ) × (last : ℕ) × (get_key_range start_key end_key ix ≡ ok (o, last))
        × (((o ≡ 0) × ((k : Key) → has k ix.sorted_keys ≡ false)) ⊎ Start start_key o)
  unfolding get_key_range has
  get_key_range_lem start_key end_key = elim (List-cases ix.sorted_keys) [
    | inl e ↦ (0, 0, rw (e, get_key_range) refl, inl (refl, λ k. rw e refl))
    | inr (k, ks, e) ↦
        let (first, at, s) = first-Start start_key (rw e (omega arith)) in
        let (last, q) =
          end_offset (first_above end_key ix.sorted_keys) (offset_or_0 ix.keys first) ix.sorted_keys
            (first_above_le end_key ix.sorted_keys) in
        (
          offset_or_0 ix.keys first,
          last,
          get_key_range-cons start_key end_key k ks first last e at q,
          inr s,
        )
  ]
