-- ===== src/Errors.antt =====
-- Exceptions: the classes of yellowdb/utils/exceptions.py that the modelled code raises, the
-- built-in exceptions that reach a caller, results, and methods that mutate an object and may raise.
use yellowdb.Prelude.{◌≡◌, refl, ◌⊎◌, inl, inr, Bool, true, false}

-- The first six are Python's own; the others subclass `YellowDBError`.
pub data Error : Type 0 where
  value_error unicode_encode_error struct_error zero_division_error index_error : Error
  key_error : Error
  database_closed_error database_corrupted_error invalid_key_error invalid_value_error : Error
  compaction_error wal_error serialization_error : Error

pub data Result {ℓ} (A : Type ℓ) : Type ℓ where
  ok : A → Result A
  raise : Error → Result A

pub Result-cases {ℓ} :
    {A : Type ℓ} (r : Result A) → ((e : Error) × (r ≡ raise e)) ⊎ ((a : A) × (r ≡ ok a))
Result-cases (ok a) = inr (a, refl)
Result-cases (raise e) = inl (e, refl)

-- `if not b: raise e`
abbrev pub guard : Bool → Error → Result (Unit {0})
guard b e = elim b [ true ↦ ok tt | false ↦ raise e ]

-- `except Exception as x: raise e from x`
abbrev pub rethrow {ℓ} : {A : Type ℓ} → Error → Result A → Result A
rethrow e (ok a) = ok a
rethrow e (raise x) = raise e

-- A statement after another: the first exception ends the method.
infixl 5 ◌>>=◌ ◌>>◌
abbrev pub ◌>>=◌ {ℓ κ} : {A : Type ℓ} {B : Type κ} → Result A → (A → Result B) → Result B
raise error >>= rest = raise error
ok x >>= rest = rest x

abbrev pub ◌>>◌ {ℓ} : {B : Type ℓ} → Result (Unit {0}) → Result B → Result B
statement >> rest = statement >>= λ done. rest

pub >>=-eq-ok {ℓ κ} :
    {A : Type ℓ} {B : Type κ} (r : Result A) (rest : A → Result B) {y : B}
    → (r >>= rest) ≡ ok y
    → (x : A) × (r ≡ ok x) × (rest x ≡ ok y)
>>=-eq-ok (raise error) rest p = absurd (cc)
>>=-eq-ok (ok x) rest p = (x, refl, p)

pub ok_inj {ℓ} : {A : Type ℓ} {x y : A} → ok x ≡ ok y → x ≡ y
ok_inj h = cc
