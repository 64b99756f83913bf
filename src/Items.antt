-- ===== src/Items.antt =====
-- Python's `l[i]`, and a method of `l[i]` that changes it. An index out of range raises.
use yellowdb.Prelude.{ℕ, zero, suc, ◌<◌, ◌≡◌, ◌≢◌, refl, ap, List, [], ◌∷◌, length, arith}
use yellowdb.Errors.{Result, ok, raise, index_error, ◌>>=◌, >>=-eq-ok}

module _ {ℓ} {A : Type ℓ} where
  -- l[i]
  unfoldable pub item : ℕ → List A → Result A
  item i [] = raise index_error
  item zero (x ∷ xs) = ok x
  item (suc i) (x ∷ xs) = item i xs

  -- a method of `l[i]` that changes it
  unfoldable pub modify : ℕ → (A → Result A) → List A → Result (List A)
  modify i f [] = raise index_error
  modify zero f (x ∷ xs) = do y ← f x; ok (y ∷ xs)
  modify (suc i) f (x ∷ xs) = do ys ← modify i f xs; ok (x ∷ ys)

  -- A method of one element changes that element and no other.
  pub item-modify :
      (i : ℕ) (f : A → Result A) (xs ys : List A)
      → modify i f xs ≡ ok ys
      → (x : A) × (y : A) × (item i xs ≡ ok x) × (f x ≡ ok y) × (item i ys ≡ ok y)
  unfolding item modify
  item-modify i f [] ys h = absurd (cc)
  item-modify zero f (x ∷ xs) ys h =
      let (y, e, p) = >>=-eq-ok (f x) _ h in (x, y, refl, e, ground arith)
  item-modify (suc i) f (x ∷ xs) ys h =
      let (zs, e, p) = >>=-eq-ok (modify i f xs) _ h in
      let (a, b, p1, p2, p3) = item-modify i f xs zs e in (a, b, p1, p2, ground arith)

  pub item-modify_ne :
      (i j : ℕ) (f : A → Result A) (xs ys : List A)
      → modify i f xs ≡ ok ys
      → i ≢ j
      → item j ys ≡ item j xs
  unfolding item modify
  item-modify_ne i j f [] ys h ne = absurd (cc)
  item-modify_ne zero zero f (x ∷ xs) ys h ne = absurd (ne refl)
  item-modify_ne zero (suc j) f (x ∷ xs) ys h ne =
      let (y, e, p) = >>=-eq-ok (f x) _ h in ground arith
  item-modify_ne (suc i) zero f (x ∷ xs) ys h ne =
      let (zs, e, p) = >>=-eq-ok (modify i f xs) _ h in ground arith
  item-modify_ne (suc i) (suc j) f (x ∷ xs) ys h ne =
      let (zs, e, p) = >>=-eq-ok (modify i f xs) _ h in
      ground (arith, item-modify_ne i j f xs zs e (λ q. ne (ap suc q)))

  pub length-modify :
      (i : ℕ) (f : A → Result A) (xs ys : List A) → modify i f xs ≡ ok ys → length ys ≡ length xs
  unfolding modify
  length-modify i f [] ys h = absurd (cc)
  length-modify zero f (x ∷ xs) ys h = let (y, e, p) = >>=-eq-ok (f x) _ h in ground arith
  length-modify (suc i) f (x ∷ xs) ys h =
      let (zs, e, p) = >>=-eq-ok (modify i f xs) _ h in ground (arith, length-modify i f xs zs e)

  pub modify-ok :
      (i : ℕ) (f : A → Result A) (xs : List A) (x y : A)
      → item i xs ≡ ok x
      → f x ≡ ok y
      → (ys : List A) × (modify i f xs ≡ ok ys)
  unfolding item modify
  modify-ok i f [] x y h e = absurd (cc)
  modify-ok zero f (a ∷ xs) x y h e = let p : a ≡ x = ground arith in (y ∷ xs, rw (p, e) refl)
  modify-ok (suc i) f (a ∷ xs) x y h e =
      let (ys, p) = modify-ok i f xs x y h e in (a ∷ ys, rw p refl)

  pub item-ok : (i : ℕ) (xs : List A) → i < length xs → (x : A) × (item i xs ≡ ok x)
  unfolding item
  item-ok i [] h = absurd (omega arith)
  item-ok zero (x ∷ xs) h = (x, refl)
  item-ok (suc i) (x ∷ xs) h = item-ok i xs (omega arith)
