-- ===== src/Bloom/Laws.antt =====
-- The invariant of the filter, and what `add` does to its bits.
use native.Mathlib.Decide.{ℕ_discrete}
use yellowdb.Prelude.{
  ℕ, zero, suc, ◌+◌, ◌/◌, ◌%◌, ◌<◌, ◌≡◌, refl, ◌∙◌, true, List, [], ◌∷◌, All, length,
  length-replicate, replicate, Option, arith, Bool-cases, inl, inr,
}
use yellowdb.Errors.{ok, >>=-eq-ok}
use yellowdb.Text.{Key, Bytes}
use yellowdb.Items.{item, modify, item-modify, item-modify_ne, length-modify}
use yellowdb.Bloom.Bits.{with_bit, has_bit, has_bit-with_bit}
use yellowdb.Config.{Config}
use yellowdb.Bloom.Defs
use yellowdb.Bloom.Defs.{BloomFilter, or_default, get_hashes, set_bits, add, all_set}

abbrev pub AreBytes : Bytes → Type 0
AreBytes = All (λ b. b < 256)

-- The bit array holds bytes and has room for `size` bits, as the constructor makes it.
pub record IsValid (f : BloomFilter) : Type 0 where
  pub positive : 0 < f.size
  pub sized : length f.bits ≡ (f.size + 7) / 8
  pub bytes : AreBytes f.bits

zero-AreBytes : (n : ℕ) → AreBytes (replicate n 0)
zero-AreBytes zero = tt
zero-AreBytes (suc n) = (omega arith, zero-AreBytes n)

-- The filter that the constructor makes is valid if its bit array is not empty.
pub new-IsValid :
    (config : Config) (size num_hashes : Option ℕ)
    → 0 < length (Defs.new config size num_hashes).bits
    → IsValid (Defs.new config size num_hashes)
unfolding Defs.new
new-IsValid config size num_hashes h = record {
  positive =
      let n = or_default size config.bloom_filter_size in
      let e : length {A = ℕ} (replicate ((n + 7) / 8) 0) ≡ (n + 7) / 8 = length-replicate _ 0 in
      let d : 0 < (n + 7) / 8 = omega (arith, e, h) in omega (arith, d);
  sized = length-replicate _ 0;
  bytes = zero-AreBytes _;
}

-- bit number `h` is set
abbrev pub Lit : Bytes → ℕ → Type 0
Lit bits h = (b : ℕ) × (item (h / 8) bits ≡ ok b) × (has_bit b (h % 8) ≡ true)

item-AreBytes : (i b : ℕ) (bits : Bytes) → AreBytes bits → item i bits ≡ ok b → b < 256
unfolding item
item-AreBytes i b [] a h = absurd (cc)
item-AreBytes zero b (x ∷ bits) a h = let e : x ≡ b = ground arith in omega (arith, a.0, e)
item-AreBytes (suc i) b (x ∷ bits) a h = item-AreBytes i b bits a.1 h

modify-AreBytes :
    (i j : ℕ) (bits bits' : Bytes)
    → j < 8
    → AreBytes bits
    → modify i (λ b. ok (with_bit b j)) bits ≡ ok bits'
    → AreBytes bits'
unfolding modify
modify-AreBytes i j [] bits' l a h = absurd (cc)
modify-AreBytes zero j (x ∷ bits) bits' l a h =
    let e : with_bit x j ∷ bits ≡ bits' = ground arith in
    rw (← e) ((has_bit-with_bit x j 0 a.0 l (omega arith)).1, a.1)
modify-AreBytes (suc i) j (x ∷ bits) bits' l a h =
    let (r, p, q) = >>=-eq-ok (modify i (λ b. ok (with_bit b j)) bits) _ h in
    let e : x ∷ r ≡ bits' = ground arith in rw (← e) (a.0, modify-AreBytes i j bits r l a.1 p)

module _ (h : ℕ) (bits bits' : Bytes) (bytes : AreBytes bits)
    (step : modify (h / 8) (λ b. ok (with_bit b (h % 8))) bits ≡ ok bits') where
  -- setting a bit lights it
  step-Lit_self : Lit bits' h
  step-Lit_self =
      let (x, y, ix, fx, iy) = item-modify (h / 8) (λ b. ok (with_bit b (h % 8))) bits bits' step in
      let l = item-AreBytes (h / 8) x bits bytes ix in
      let m : h % 8 < 8 = omega arith in
      (y, iy, ground (arith, has_bit-with_bit x (h % 8) (h % 8) l m m))

  -- and puts out no other
  step-Lit : (g : ℕ) → Lit bits g → Lit bits' g
  step-Lit g (b, ib, lit) = elim (ℕ_discrete (h / 8) (g / 8)) [
    | no p ↦ (b, item-modify_ne (h / 8) (g / 8) _ bits bits' step p ∙ ib, lit)
    | yes p ↦
        let (x, y, ix, fx, iy) =
          item-modify (h / 8) (λ b. ok (with_bit b (h % 8))) bits bits' step in
        let l = item-AreBytes (h / 8) x bits bytes ix in
        let m : h % 8 < 8 = omega arith in
        let m' : g % 8 < 8 = omega arith in
        let q : x ≡ b = cc in
        (y, rw (← p) iy, ground (arith, has_bit-with_bit x (h % 8) (g % 8) l m m'))
  ]

-- What the loop of `add` has done.
pub set_bits_lem :
    (hs : List ℕ) (bits bits' : Bytes)
    → AreBytes bits
    → set_bits hs bits ≡ ok bits'
    → AreBytes bits'
      × (length bits' ≡ length bits)
      × ((g : ℕ) → Lit bits g → Lit bits' g)
      × All (Lit bits') hs
unfolding set_bits
set_bits_lem [] bits bits' a h =
    let e : bits ≡ bits' = ground arith in rw (← e) (a, refl, λ g l. l, tt)
set_bits_lem (x ∷ hs) bits bits' a h =
    let (r, p, q) = >>=-eq-ok (modify (x / 8) (λ b. ok (with_bit b (x % 8))) bits) _ h in
    let a' = modify-AreBytes (x / 8) (x % 8) bits r (omega arith) a p in
    let (b', l, keep, lit) = set_bits_lem hs r bits' a' q in
    (
      b',
      l ∙ length-modify (x / 8) _ bits r p,
      λ g lg. keep g (step-Lit x bits r a p g lg),
      (keep x (step-Lit_self x bits r a p), lit),
    )

pub all_set-Lit : (hs : List ℕ) (bits : Bytes) → All (Lit bits) hs → all_set hs bits ≡ ok true
unfolding all_set
all_set-Lit [] bits a = refl
all_set-Lit (h ∷ hs) bits ((b, i, l), a) = rw i (rw l (all_set-Lit hs bits a))

pub Lit-all_set : (hs : List ℕ) (bits : Bytes) → all_set hs bits ≡ ok true → All (Lit bits) hs
unfolding all_set
Lit-all_set [] bits h = tt
Lit-all_set (x ∷ hs) bits h =
    let (b, i, q) = >>=-eq-ok (item (x / 8) bits) _ h in
    elim (Bool-cases (has_bit b (x % 8))) [
      | inl l ↦ ((b, i, l), Lit-all_set hs bits (ground arith))
      | inr l ↦ absurd (ground arith)
    ]

module _ (md5 : Bytes → ℕ) where
  -- what an `add` that does not raise has done
  pub add_inv :
      (key : Key) (f f' : BloomFilter)
      → IsValid f
      → add md5 key f ≡ ok f'
      → (hs : List ℕ) × (get_hashes md5 f key ≡ ok hs)
        × (set_bits hs f.bits ≡ ok f'.bits)
        × (f'.size ≡ f.size)
        × (f'.num_hashes ≡ f.num_hashes)
  unfolding add
  add_inv key f f' v h =
      let (hs, e, h1) = >>=-eq-ok (get_hashes md5 f key) _ h in
      let (bits, e', h2) = >>=-eq-ok (set_bits hs f.bits) _ h1 in
      (hs, e, ground arith, ground arith, ground arith)

  pub add-IsValid :
      (key : Key) {f f' : BloomFilter} → IsValid f → add md5 key f ≡ ok f' → IsValid f'
  add-IsValid key {f} {f'} v h =
      let (hs, e, p, s, n) = add_inv key f f' v h in
      let (a, l, _, _) = set_bits_lem hs f.bits f'.bits v.bytes p in
      record {
        positive = omega (arith, v.positive, s);
        sized = omega (arith, v.sized, l, s);
        bytes = a;
      }
