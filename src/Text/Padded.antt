-- ===== src/Text/Padded.antt =====
-- Numbers that are printed with six digits, in the order of strings.
use yellowdb.Prelude.{
  ℕ, zero, suc, ◌+◌, ◌-◌, ◌*◌, ◌/◌, ◌%◌, ◌≤◌, ◌<◌, ◌≡◌, refl, sym, ap, ◌∙◌, true, [], ◌∷◌, ◌++◌,
  append_assoc, length, length-append, ltb, arith, Bool-cases, inl, inr,
}
use yellowdb.Text.Defs.{Key}
use yellowdb.Text.Order.{key_lt}
use yellowdb.Text.Decimal.{digits_in, digits, zeros, padded}

-- the last `k` digits of `n`
fixed : ℕ → ℕ → Key
fixed zero n = []
fixed (suc k) n = fixed k (n / 10) ++ (48 + n % 10) ∷ []

zeros_snoc : (k : ℕ) → zeros k ++ 48 ∷ [] ≡ zeros (suc k)
unfolding zeros
zeros_snoc zero = refl
zeros_snoc (suc k) = ap (◌∷◌ 48) (zeros_snoc k)

fixed-zero : (k : ℕ) → fixed k 0 ≡ zeros k
unfolding fixed
fixed-zero zero = unfold zeros in refl
fixed-zero (suc k) = rw (fixed-zero k) (zeros_snoc k)

-- 10 ** k
abbrev pub power_of_ten : ℕ → ℕ
power_of_ten zero = 1
power_of_ten (suc k) = 10 * power_of_ten k

one_digit : (k n : ℕ) → n < 10 → zeros (suc k - 1) ++ (48 + n) ∷ [] ≡ fixed (suc k) n
unfolding fixed
one_digit k n h =
    let a : suc k - 1 ≡ k = omega arith in
    let b : n / 10 ≡ 0 = omega arith in
    let c : n % 10 ≡ n = omega arith in rw (a, b, c, fixed-zero k) refl

digits-fixed :
    (rounds k n : ℕ)
    → n ≤ rounds
    → n < power_of_ten (suc k)
    → zeros (suc k - length (digits_in rounds n)) ++ digits_in rounds n ≡ fixed (suc k) n
unfolding digits_in fixed
digits-fixed zero k n h l = let e : n ≡ 0 = omega arith in rw e (one_digit k 0 (omega arith))
digits-fixed (suc rounds) zero n h l =
    let q : ltb n 10 ≡ true = ground arith in rw q (one_digit zero n (omega arith))
digits-fixed (suc rounds) (suc k) n h l = elim (Bool-cases (ltb n 10)) [
  | inl q ↦ rw q (one_digit (suc k) n (ground arith))
  | inr q ↦
      let d = digits_in rounds (n / 10) in
      let t = (48 + n % 10) ∷ [] in
      let e : suc (suc k) - length (d ++ t) ≡ suc k - length d = omega (arith, length-append d t) in
      let ih = digits-fixed rounds k (n / 10) (ground arith) (omega arith) in
      rw (q, e) (sym (append_assoc (zeros (suc k - length d)) d t) ∙ ap (λ x. x ++ t) ih)
]

padded-eq-fixed : (n : ℕ) → n < 1000000 → padded n ≡ fixed 6 n
unfolding padded digits
padded-eq-fixed n h = digits-fixed n 5 n (omega arith) h

key_lt-append :
    (xs ys s t : Key)
    → length xs ≡ length ys
    → key_lt xs ys ≡ true
    → key_lt (xs ++ s) (ys ++ t) ≡ true
unfolding key_lt
key_lt-append [] [] s t l h = cc
key_lt-append [] (y ∷ ys) s t l h = absurd (omega arith)
key_lt-append (x ∷ xs) [] s t l h = absurd (omega arith)
key_lt-append (x ∷ xs) (y ∷ ys) s t l h =
    let ih = key_lt-append xs ys s t (omega arith) in ground (arith, ih)

pub key_lt-prefix : (p s t : Key) → key_lt (p ++ s) (p ++ t) ≡ key_lt s t
unfolding key_lt
key_lt-prefix [] s t = refl
key_lt-prefix (x ∷ p) s t = ground (arith, key_lt-prefix p s t)

length-fixed : (k n : ℕ) → length (fixed k n) ≡ k
unfolding fixed
length-fixed zero n = refl
length-fixed (suc k) n =
    omega (arith, length-append (fixed k (n / 10)) ((48 + n % 10) ∷ []), length-fixed k (n / 10))

key_lt-fixed : (k m n : ℕ) → m < n → n < power_of_ten k → key_lt (fixed k m) (fixed k n) ≡ true
unfolding fixed
key_lt-fixed zero m n h l = absurd (omega arith)
key_lt-fixed (suc k) m n h l = elim (Bool-cases (ltb (m / 10) (n / 10))) [
  | inl q ↦
      key_lt-append (fixed k (m / 10)) (fixed k (n / 10)) _ _
        (length-fixed k (m / 10) ∙ sym (length-fixed k (n / 10)))
        (key_lt-fixed k (m / 10) (n / 10) (ground arith) (omega arith))
  | inr q ↦
      let e : m / 10 ≡ n / 10 = ground arith in
      let d : ltb (48 + m % 10) (48 + n % 10) ≡ true = ground arith in
      rw e (key_lt-prefix (fixed k (n / 10)) _ _ ∙ unfold key_lt in rw d refl)
]

-- Numbers of at most six digits that are printed with six are ordered as the numbers are.
pub key_lt-padded :
    (m n : ℕ) (s t : Key) → m < n → n < 1000000 → key_lt (padded m ++ s) (padded n ++ t) ≡ true
key_lt-padded m n s t h l =
    rw (padded-eq-fixed m (omega arith), padded-eq-fixed n l)
      (key_lt-append (fixed 6 m) (fixed 6 n) s t (length-fixed 6 m ∙ sym (length-fixed 6 n))
        (key_lt-fixed 6 m n h l))
