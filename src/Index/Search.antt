-- ===== src/Index/Search.antt =====
-- The binary search of `get_offset`.
use yellowdb.Prelude.{
  ℕ, zero, suc, ◌+◌, ◌-◌, ◌/◌, ◌<◌, ◌≤◌, ◌≡◌, refl, true, false, some, List, arith, ltb, length,
  Bool-cases, inl, inr, Option-cases, ◌∷◌, [], ◌⊎◌, ◌∙◌,
}
use yellowdb.Errors.{ok, ◌>>=◌}
use yellowdb.Text.{Key}
use yellowdb.Text.Order.{key_eq, key_eq_iff, key_le, key_lt_irrefl}
use yellowdb.Dict.{lookup}
use yellowdb.Items.{item, item-ok}
use yellowdb.Index.Keys.{has, IsAscending, AtLeast, key_le_trans}
use yellowdb.Index.Defs.{SparseIndex, search, offset_of}
use yellowdb.Index.Laws.{IsValid}

item-AtLeast :
    (k : Key) (ks : List Key) (i : ℕ) {x : Key}
    → AtLeast k ks
    → item i ks ≡ ok x
    → key_le k x ≡ true
unfolding item
item-AtLeast k [] i a h = absurd (cc)
item-AtLeast k (j ∷ js) zero a h = ground arith
item-AtLeast k (j ∷ js) (suc i) a h = item-AtLeast k js i a.1 h

pub item-IsAscending :
    (ks : List Key) (i j : ℕ) {x y : Key}
    → IsAscending ks
    → i ≤ j
    → item i ks ≡ ok x
    → item j ks ≡ ok y
    → key_le x y ≡ true
unfolding item
item-IsAscending [] i j s le h g = absurd (cc)
item-IsAscending (k ∷ ks) zero zero {x} {y} s le h g =
    let e : x ≡ y = ground arith in ground (arith, key_lt_irrefl y)
item-IsAscending (k ∷ ks) zero (suc j) {x} s le h g =
    let e : k ≡ x = ground arith in rw (← e) (item-AtLeast k ks j s.0 g)
item-IsAscending (k ∷ ks) (suc i) zero s le h g = absurd (omega arith)
item-IsAscending (k ∷ ks) (suc i) (suc j) s le h g = item-IsAscending ks i j s.1 (omega arith) h g

pub item-has : (ks : List Key) (i : ℕ) {x : Key} → item i ks ≡ ok x → has x ks ≡ true
unfolding item has
item-has [] i h = absurd (cc)
item-has (k ∷ ks) zero {x} h = ground (arith, key_eq_iff k x)
item-has (k ∷ ks) (suc i) h = ground (arith, item-has ks i h)

pub has-item : (x : Key) (ks : List Key) → has x ks ≡ true → (i : ℕ) × (item i ks ≡ ok x)
unfolding item has
has-item x [] h = absurd (cc)
has-item x (k ∷ ks) h = elim (Bool-cases (key_eq k x)) [
  | inl p ↦ let e : k ≡ x = (key_eq_iff k x).0 p in (0, rw e refl)
  | inr p ↦ let (i, q) = has-item x ks (ground arith) in (suc i, q)
]

item-lt : (ks : List Key) (i : ℕ) {x : Key} → item i ks ≡ ok x → i < length ks
unfolding item
item-lt [] i h = absurd (cc)
item-lt (k ∷ ks) zero h = omega arith
item-lt (k ∷ ks) (suc i) h = omega (arith, item-lt ks i h)

module _ (ix : SparseIndex) (key : Key) where
  -- where the search stands: the keys in front of `left` are not greater than the key, those from
  -- `stop` on are, and the offset is that of the last key in front of `left`, or 0
  pub record Stands (left stop offset : ℕ) : Type 0 where
    pub ordered : left ≤ stop
    pub within : stop ≤ length ix.sorted_keys
    pub lower : (i : ℕ) {x : Key} → item i ix.sorted_keys ≡ ok x → i < left → key_le x key ≡ true
    pub upper : (i : ℕ) {x : Key} → item i ix.sorted_keys ≡ ok x → stop ≤ i → key_le x key ≡ false
    pub offset_at :
        ((left ≡ 0) × (offset ≡ 0))
        ⊎ ((i : ℕ) × (x : Key) × (left ≡ suc i)
            × (item i ix.sorted_keys ≡ ok x)
            × (lookup x ix.keys ≡ some offset))

  pub Stands-start : Stands 0 (length ix.sorted_keys) 0
  Stands-start = record {
    ordered = omega arith;
    within = omega arith;
    lower = λ i h p. absurd (omega arith);
    upper = λ i {x} h p. absurd (omega (arith, item-lt ix.sorted_keys i h));
    offset_at = inl (refl, refl);
  }

  offset_of_has :
      (v : IsValid ix) (i : ℕ) {x : Key}
      → item i ix.sorted_keys ≡ ok x
      → (o : ℕ) × (lookup x ix.keys ≡ some o)
  offset_of_has v i {x} h = elim (Option-cases (lookup x ix.keys)) [
    | inl p ↦ let q = item-has ix.sorted_keys i h in let e = v.same x in absurd (ground arith)
    | inr (o, p) ↦ (o, p)
  ]

  Stands-right :
      {left stop offset : ℕ} (v : IsValid ix) (m : ℕ) (x : Key) (o : ℕ)
      → Stands left stop offset
      → m < stop
      → item m ix.sorted_keys ≡ ok x
      → key_le x key ≡ true
      → lookup x ix.keys ≡ some o
      → Stands (m + 1) stop o
  Stands-right v m x o s lt at le e = record {
    ordered = omega arith;
    within = s.within;
    lower = λ i {x = y} h p.
        key_le_trans y x key (item-IsAscending ix.sorted_keys i m v.ascending (omega arith) h at)
          le;
    upper = s.upper;
    offset_at = inr (m, x, omega arith, at, e);
  }

  Stands-left :
      {left stop offset : ℕ} (v : IsValid ix) (m : ℕ) (x : Key)
      → Stands left stop offset
      → left ≤ m
      → m < stop
      → item m ix.sorted_keys ≡ ok x
      → key_le x key ≡ false
      → Stands left m offset
  Stands-left v m x s ge lt at le = record {
    ordered = ge;
    within = omega (arith, s.within);
    lower = s.lower;
    upper = λ i {x = y} h p. elim (Bool-cases (key_le y key)) [
      | inl q ↦
          let r = item-IsAscending ix.sorted_keys m i v.ascending p at h in
          let t = key_le_trans x y key r q in absurd (cc)
      | inr q ↦ q
    ];
    offset_at = s.offset_at;
  }

  search-right :
      (fuel left stop offset : ℕ) {x : Key} {o : ℕ}
      → ltb left stop ≡ true
      → item ((left + (stop - 1)) / 2) ix.sorted_keys ≡ ok x
      → key_le x key ≡ true
      → lookup x ix.keys ≡ some o
      → search (suc fuel) ix key left stop offset
        ≡ search fuel ix key ((left + (stop - 1)) / 2 + 1) stop o
  unfolding search offset_of
  search-right fuel left stop offset p at q e = rw (p, search, at, ◌>>=◌, q, offset_of, e) refl

  search-left :
      (fuel left stop offset : ℕ) {x : Key}
      → ltb left stop ≡ true
      → item ((left + (stop - 1)) / 2) ix.sorted_keys ≡ ok x
      → key_le x key ≡ false
      → search (suc fuel) ix key left stop offset
        ≡ search fuel ix key left ((left + (stop - 1)) / 2) offset
  unfolding search
  search-left fuel left stop offset p at q = rw (p, search, at, ◌>>=◌, q) refl

  search-done :
      (fuel left stop offset : ℕ)
      → ltb left stop ≡ false
      → search (suc fuel) ix key left stop offset ≡ ok offset
  unfolding search
  search-done fuel left stop offset p = rw (p, search) refl

  pub search_lem :
      (v : IsValid ix) (fuel left stop offset : ℕ)
      → Stands left stop offset
      → stop - left < fuel
      → (p : ℕ) × (o : ℕ) × (search fuel ix key left stop offset ≡ ok o) × Stands p p o
  search_lem v zero left stop offset s f = absurd (omega arith)
  search_lem v (suc fuel) left stop offset s f = elim (Bool-cases (ltb left stop)) [
    | inr p ↦ (
      left,
      offset,
      search-done fuel left stop offset p,
      (let e : stop ≡ left = ground (arith, s.ordered) in rw e at s),
    )
    | inl p ↦
        let m = (left + (stop - 1)) / 2 in
        let lt : m < stop = ground arith in
        let ge : left ≤ m = ground arith in
        let (x, at) = item-ok m ix.sorted_keys (omega (arith, s.within)) in
        let (o, e) = offset_of_has v m at in
        elim (Bool-cases (key_le x key)) [
          | inl q ↦
              let (n, r, g, t) =
                search_lem v fuel (m + 1) stop o (Stands-right v m x o s lt at q e) (omega arith) in
              (n, r, search-right fuel left stop offset p at q e ∙ g, t)
          | inr q ↦
              let (n, r, g, t) =
                search_lem v fuel left m offset (Stands-left v m x s ge lt at q) (omega arith) in
              (n, r, search-left fuel left stop offset p at q ∙ g, t)
        ]
  ]
