-- ===== src/Bloom/Bits.antt =====
-- The bits of a byte, by Python's `|`, `&` and `<<`. The laws are checked for all 256 bytes.
use Prim.Native.Nat.{bit_and, bit_or}
use yellowdb.Prelude.{
  ℕ, zero, suc, ◌^◌, ◌<◌, ◌≡◌, refl, Bool, true, false, not, ◌&&◌, ◌||◌, arith, ltb, ◌==◌,
}

-- `b | 1 << i`
unfoldable pub with_bit : ℕ → ℕ → ℕ
with_bit b i = bit_or b (2 ^ i)

-- `b & (1 << i)` as a test
unfoldable pub has_bit : ℕ → ℕ → Bool
has_bit b i = not (bit_and b (2 ^ i) == 0)

-- `all(test(i) for i in range(n))`
every : (ℕ → Bool) → ℕ → Bool
every test zero = true
every test (suc k) = every test k && test k

every_at : (test : ℕ → Bool) {i : ℕ} (n : ℕ) → i < n → every test n ≡ true → test i ≡ true
unfolding every
every_at test zero below all = absurd (omega arith)
every_at test {i = i} (suc k) below all = ground (arith, every_at test {i = i} k)

abbrev same : Bool → Bool → Bool
same true b = b
same false b = not b

abbrev law : ℕ → ℕ → ℕ → Bool
law b i j = same (has_bit (with_bit b i) j) (i == j || has_bit b j) && ltb (with_bit b i) 256

table : every (λ b. every (λ i. every (law b i) 8) 8) 256 ≡ true
unfolding every with_bit has_bit
table = refl

-- Setting a bit of a byte sets that bit, leaves the others, and gives a byte.
pub has_bit-with_bit :
    (b i j : ℕ)
    → b < 256
    → i < 8
    → j < 8
    → (has_bit (with_bit b i) j ≡ (i == j || has_bit b j)) × (with_bit b i < 256)
has_bit-with_bit b i j hb hi hj =
    let row = every_at (λ b. every (λ k. every (law b k) 8) 8) 256 hb table in
    let cell = every_at (λ k. every (law b k) 8) 8 hi row in
    let t = every_at (law b i) 8 hj cell in ground arith
