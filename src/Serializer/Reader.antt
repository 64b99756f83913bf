-- ===== src/Serializer/Reader.antt =====
-- File objects open for reading. A reader takes the bytes from the current position on and gives
-- its result beside the bytes that are left.
use yellowdb.Prelude.{
  ℕ, ◌≤◌, ◌<◌, ◌≡◌, refl, ◌++◌, ltb, length, take, drop, arith, take-append_of_le,
  drop-append_of_le, length-take, length-take-le, length-append, if◌then◌else◌, ◌∙◌,
}
use yellowdb.Errors.{Result, ok, raise, serialization_error}
use yellowdb.Text.{Bytes}

abbrev pub Reader {ℓ} : Type ℓ → Type ℓ
Reader A = Bytes → Result (A × Bytes)

abbrev pub resume {ℓ κ} :
    {A : Type ℓ} {B : Type κ} → Result (A × Bytes) → (A → Reader B) → Result (B × Bytes)
resume (ok (a, s)) f = f a s
resume (raise e) f = raise e

infixl 5 ◌>>=◌
abbrev pub ◌>>=◌ {ℓ κ} : {A : Type ℓ} {B : Type κ} → Reader A → (A → Reader B) → Reader B
◌>>=◌ m f s = resume (m s) f

unfoldable pub lift {ℓ} : {A : Type ℓ} → Result A → Reader A
lift (ok a) s = ok (a, s)
lift (raise e) s = raise e

-- `d = f.read(n)` and then `if len(d) < n: raise SerializationError(…)`
unfoldable pub read_exact : ℕ → Reader Bytes
read_exact n s =
    if ltb (length (take n s)) n then raise serialization_error else ok (take n s, drop n s)

-- A reader is local: bytes behind those that it took do not change its result, and it takes
-- bytes off the front only.
pub record IsLocal {ℓ} {A : Type ℓ} (m : Reader A) : Type ℓ where
  pub extend :
      (s t : Bytes) (a : A) (rest : Bytes) → m s ≡ ok (a, rest) → m (s ++ t) ≡ ok (a, rest ++ t)

module _ {ℓ} {A : Type ℓ} where
  pub IsLocal-pure : (a : A) → IsLocal (λ s. ok (a, s))
  IsLocal-pure a = record { extend = λ s t b rest h. ground arith }

  pub IsLocal-lift : (r : Result A) → IsLocal (lift r)
  unfolding lift
  IsLocal-lift (ok a) = record { extend = λ s t b rest h. ground arith }
  IsLocal-lift (raise e) = record { extend = λ s t b rest h. cc }

resume-extend {ℓ κ} :
    {A : Type ℓ} {B : Type κ} (m : Reader A) (f : A → Reader B)
    → IsLocal m
    → ((a : A) → IsLocal (f a))
    → (s t : Bytes) (r : Result (A × Bytes)) (b : B) (rest : Bytes) → m s ≡ r
    → resume r f ≡ ok (b, rest)
    → resume (m (s ++ t)) f ≡ ok (b, rest ++ t)
resume-extend m f lm lf s t (ok (a, s')) b rest e h =
    rw (lm.extend s t a s' e) ((lf a).extend s' t b rest h)
resume-extend m f lm lf s t (raise x) b rest e h = cc

pub IsLocal-bind {ℓ κ} :
    {A : Type ℓ} {B : Type κ} (m : Reader A) (f : A → Reader B)
    → IsLocal m
    → ((a : A) → IsLocal (f a))
    → IsLocal (m >>= f)
IsLocal-bind m f lm lf = record {
  extend = λ s t b rest h. resume-extend m f lm lf s t (m s) b rest refl h;
}

pub read_exact-ok : (n : ℕ) (s : Bytes) → n ≤ length s → read_exact n s ≡ ok (take n s, drop n s)
unfolding read_exact
read_exact-ok n s h = ground (arith, length-take n s h)

pub read_exact-short :
    (n : ℕ) (s : Bytes) → length s < n → read_exact n s ≡ raise serialization_error
unfolding read_exact
read_exact-short n s h = ground (arith, length-take-le n s)

-- What a successful read returns.
pub read_exact-inv :
    (n : ℕ) (s a rest : Bytes)
    → read_exact n s ≡ ok (a, rest)
    → (n ≤ length s) × (take n s ≡ a) × (drop n s ≡ rest)
unfolding read_exact
read_exact-inv n s a rest h = ground (arith, length-take-le n s)

pub read_exact-IsLocal : (n : ℕ) → IsLocal (read_exact n)
read_exact-IsLocal n = record { extend = at }
  where
    at :
        (s t a rest : Bytes)
        → read_exact n s ≡ ok (a, rest)
        → read_exact n (s ++ t) ≡ ok (a, rest ++ t)
    at s t a rest h =
        let (fits, e, e') = read_exact-inv n s a rest h in
        read_exact-ok n (s ++ t) (omega (arith, length-append s t))
        ∙ rw (take-append_of_le n s t fits, drop-append_of_le n s t fits, e, e')

pub ruleset local_rules = (IsLocal-pure, IsLocal-lift, IsLocal-bind, read_exact-IsLocal)
