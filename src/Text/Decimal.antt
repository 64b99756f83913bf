-- ===== src/Text/Decimal.antt =====
-- Decimal numbers in strings: `str(n)`, the format `:06d`, and the reading of digits.
use yellowdb.Prelude.{
  ℕ, zero, suc, ◌+◌, ◌-◌, ◌*◌, ◌/◌, ◌%◌, ◌≤◌, ◌<◌, ◌≡◌, refl, ap, ◌∙◌, true, ◌&&◌, [], ◌∷◌, ◌++◌,
  append_assoc, length, ltb, leb, arith, if◌then◌else◌, Bool-cases, inl, inr,
}
use yellowdb.Text.Defs.{Key}

-- the digits of `n`; as many rounds as `n` are enough
unfoldable pub digits_in : ℕ → ℕ → Key
digits_in zero n = (48 + n % 10) ∷ []
digits_in (suc rounds) n =
    let more = digits_in rounds (n / 10) in
    if ltb n 10 then (48 + n) ∷ [] else more ++ (48 + n % 10) ∷ []

-- str(n)
unfoldable pub digits : ℕ → Key
unfolding digits_in
digits n = digits_in n n

unfoldable pub zeros : ℕ → Key
zeros zero = []
zeros (suc k) = 48 ∷ zeros k

-- f"{n:06d}"
unfoldable pub padded : ℕ → Key
unfolding digits zeros
padded n = zeros (6 - length (digits n)) ++ digits n

-- the number that the digits at the start give, after the number `acc`
unfoldable pub read_number : ℕ → Key → ℕ × Key
read_number acc [] = (acc, [])
read_number acc (c ∷ s) =
    let rest = read_number (acc * 10 + (c - 48)) s in
    if leb 48 c && leb c 57 then rest else (acc, c ∷ s)

read_digit :
    (acc d : ℕ) (s : Key) → d < 10 → read_number acc ((48 + d) ∷ s) ≡ read_number (acc * 10 + d) s
unfolding read_number
read_digit acc d s h =
    let a : leb 48 (48 + d) ≡ true = ground arith in
    let b : leb (48 + d) 57 ≡ true = ground arith in
    let c : 48 + d - 48 ≡ d = omega arith in rw (a, b, c) refl

read-digits_in :
    (rounds n : ℕ) (s : Key)
    → n ≤ rounds
    → read_number 0 (digits_in rounds n ++ s) ≡ read_number n s
unfolding digits_in
read-digits_in zero n s h = let e : n ≡ 0 = omega arith in rw e (read_digit 0 0 s (omega arith))
read-digits_in (suc rounds) n s h = elim (Bool-cases (ltb n 10)) [
  | inl q ↦
      let e : 0 * 10 + n ≡ n = omega arith in
      rw q (read_digit 0 n s (ground arith) ∙ ap (λ m. read_number m s) e)
  | inr q ↦
      let l : n % 10 < 10 = omega arith in
      let e : n / 10 * 10 + n % 10 ≡ n = omega arith in
      rw (q, append_assoc)
        (read-digits_in rounds (n / 10) ((48 + n % 10) ∷ s) (ground arith)
          ∙ read_digit (n / 10) (n % 10) s l
          ∙ ap (λ m. read_number m s) e)
]

read-zeros : (k : ℕ) (s : Key) → read_number 0 (zeros k ++ s) ≡ read_number 0 s
unfolding zeros read_number
read-zeros zero s = refl
read-zeros (suc k) s = read-zeros k s

-- Reading the digits that were printed gives the number back.
pub read-digits : (n : ℕ) (s : Key) → read_number 0 (digits n ++ s) ≡ read_number n s
unfolding digits
read-digits n s = read-digits_in n n s (omega arith)

pub read-padded : (n : ℕ) (s : Key) → read_number 0 (padded n ++ s) ≡ read_number n s
unfolding padded
read-padded n s =
    rw append_assoc (read-zeros (6 - length (digits n)) (digits n ++ s) ∙ read-digits n s)
