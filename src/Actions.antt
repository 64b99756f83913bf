-- ===== src/Actions.antt =====
-- Methods of a mutable object as state and exceptions: what a call has changed before it raises
-- stays changed.
use yellowdb.Prelude.{◌≡◌, refl, ap, Bool, if◌then◌else◌}
use yellowdb.Errors.{Error, Result, ok, raise}

abbrev pub Action {ℓ κ} : Type ℓ → Type κ → Type (ℓ ⊔ κ)
Action S A = S → Result A × S

module _ {ℓ κ} {S : Type ℓ} {A : Type κ} where
  abbrev pub pure : A → Action S A
  pure a s = (ok a, s)

  abbrev pub gets : (S → A) → Action S A
  gets f s = (ok (f s), s)

  -- a part that raises leaves the object as it is
  abbrev pub lift : Result A → Action S A
  lift r s = (r, s)

module _ {ℓ} {S : Type ℓ} where
  abbrev pub modify : (S → S) → Action S (Unit {0})
  modify f s = (ok tt, f s)

  -- `if c: raise e`
  abbrev pub raise_if : Bool → Error → Action S (Unit {0})
  raise_if c e s = (if c then raise e else ok tt, s)

-- what follows a call that ended like this
unfoldable pub continue {ℓ κ μ} :
    {S : Type ℓ} {A : Type κ} {B : Type μ} → Result A × S → (A → Action S B) → Result B × S
continue (raise e, s) f = (raise e, s)
continue (ok a, s) f = f a s

infixl 5 ◌>>=◌ ◌>>◌
unfoldable pub ◌>>=◌ {ℓ κ μ} :
    {S : Type ℓ} {A : Type κ} {B : Type μ} → Action S A → (A → Action S B) → Action S B
unfolding continue
◌>>=◌ m f s = continue (m s) f

abbrev pub ◌>>◌ {ℓ κ} : {S : Type ℓ} {B : Type κ} → Action S (Unit {0}) → Action S B → Action S B
m >> k = m >>= λ _. k

module _ {ℓ κ μ} {S : Type ℓ} {A : Type κ} {B : Type μ} where
  pub >>=-eq-continue :
      (m : Action S A) (f : A → Action S B) (s : S) → (m >>= f) s ≡ continue (m s) f
  unfolding ◌>>=◌
  >>=-eq-continue m f s = refl

  pub >>=-raise :
      (m : Action S A) (f : A → Action S B) {s s' : S} {e : Error}
      → m s ≡ (raise e, s')
      → (m >>= f) s ≡ (raise e, s')
  unfolding ◌>>=◌
  >>=-raise m f h = ap (λ r. continue r f) h

  pub >>=-ok :
      (m : Action S A) (f : A → Action S B) {s s' : S} {a : A}
      → m s ≡ (ok a, s')
      → (m >>= f) s ≡ f a s'
  unfolding ◌>>=◌
  >>=-ok m f h = ap (λ r. continue r f) h

  continue_inv :
      (r : Result A × S) (f : A → Action S B) {s' : S} {b : B}
      → continue r f ≡ (ok b, s')
      → (a : A) × (s1 : S) × (r ≡ (ok a, s1)) × (f a s1 ≡ (ok b, s'))
  unfolding continue
  continue_inv (raise e, s) f h = absurd (cc)
  continue_inv (ok a, s) f h = (a, s, refl, h)

  -- A sequence that does not raise: its first part does not, and the rest goes on from there.
  pub >>=-inv :
      (m : Action S A) (f : A → Action S B) {s s' : S} {b : B}
      → (m >>= f) s ≡ (ok b, s')
      → (a : A) × (s1 : S) × (m s ≡ (ok a, s1)) × (f a s1 ≡ (ok b, s'))
  unfolding ◌>>=◌
  >>=-inv m f {s} h = continue_inv (m s) f h

-- a call whose result is known
pub with_result {ℓ κ} :
    {S : Type ℓ} {A : Type κ} (m : Action S A) (s : S) (a : A)
    → (m s).0 ≡ ok a
    → m s ≡ (ok a, (m s).1)
with_result m s a h = ap (λ r. (r, (m s).1)) h
