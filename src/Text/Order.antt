-- ===== src/Text/Order.antt =====
-- The operators `<`, `<=` and `==` on Python strings: by code point, a proper prefix first.
use yellowdb.Prelude.{
  ◌≡◌, refl, ◌↔◌, Bool, true, false, not, [], ◌∷◌, arith, ltb, ◌==◌, if◌then◌else◌,
}
use yellowdb.Text.{Key}

unfoldable pub key_lt : Key → Key → Bool
key_lt [] [] = false
key_lt [] (y ∷ ys) = true
key_lt (x ∷ xs) [] = false
key_lt (x ∷ xs) (y ∷ ys) =
    let rest = key_lt xs ys in if ltb x y then true else if x == y then rest else false

unfoldable pub key_eq : Key → Key → Bool
key_eq [] [] = true
key_eq [] (y ∷ ys) = false
key_eq (x ∷ xs) [] = false
key_eq (x ∷ xs) (y ∷ ys) = let rest = key_eq xs ys in if x == y then rest else false

-- a <= b
abbrev pub key_le : Key → Key → Bool
key_le a b = not (key_lt b a)

pub key_lt_irrefl : (a : Key) → key_lt a a ≡ false
unfolding key_lt
key_lt_irrefl [] = refl
key_lt_irrefl (x ∷ xs) = ground (arith, key_lt_irrefl xs)

pub key_lt_trans : (a b c : Key) → key_lt a b ≡ true → key_lt b c ≡ true → key_lt a c ≡ true
unfolding key_lt
key_lt_trans [] [] c h k = cc
key_lt_trans [] (y ∷ ys) [] h k = cc
key_lt_trans [] (y ∷ ys) (z ∷ zs) h k = refl
key_lt_trans (x ∷ xs) [] c h k = cc
key_lt_trans (x ∷ xs) (y ∷ ys) [] h k = cc
key_lt_trans (x ∷ xs) (y ∷ ys) (z ∷ zs) h k = ground (arith, key_lt_trans xs ys zs)

pub key_lt_asymm : (a b : Key) → key_lt a b ≡ true → key_lt b a ≡ false
unfolding key_lt
key_lt_asymm [] [] h = refl
key_lt_asymm [] (y ∷ ys) h = refl
key_lt_asymm (x ∷ xs) [] h = cc
key_lt_asymm (x ∷ xs) (y ∷ ys) h = ground (arith, key_lt_asymm xs ys)

pub key_lt_total : (a b : Key) → key_lt a b ≡ false → key_eq a b ≡ false → key_lt b a ≡ true
unfolding key_lt key_eq
key_lt_total [] [] h k = cc
key_lt_total [] (y ∷ ys) h k = cc
key_lt_total (x ∷ xs) [] h k = refl
key_lt_total (x ∷ xs) (y ∷ ys) h k = ground (arith, key_lt_total xs ys)

pub key_eq_refl : (a : Key) → key_eq a a ≡ true
unfolding key_eq
key_eq_refl [] = refl
key_eq_refl (x ∷ xs) = ground (arith, key_eq_refl xs)

pub key_eq_sound : (a b : Key) → key_eq a b ≡ true → a ≡ b
unfolding key_eq
key_eq_sound [] [] h = refl
key_eq_sound [] (y ∷ ys) h = cc
key_eq_sound (x ∷ xs) [] h = cc
key_eq_sound (x ∷ xs) (y ∷ ys) h = ground (arith, key_eq_sound xs ys)

-- `==` decides equality.
pub key_eq_iff : (a b : Key) → (key_eq a b ≡ true) ↔ (a ≡ b)
key_eq_iff a b = (key_eq_sound a b, λ e. rw e (key_eq_refl b))

pub key_lt→ne : (a b : Key) → key_lt a b ≡ true → key_eq a b ≡ false
key_lt→ne a b h = ground (arith, key_eq_iff a b, key_lt_irrefl b)
