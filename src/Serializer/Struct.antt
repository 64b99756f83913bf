-- ===== src/Serializer/Struct.antt =====
-- The `struct` formats ">I" and ">Q": big-endian unsigned integers of 4 and 8 bytes. `pack` raises
-- `struct.error` at a number that does not fit.
use yellowdb.Prelude.{
  ℕ, zero, suc, ◌+◌, ◌*◌, ◌/◌, ◌%◌, ◌<◌, ◌≡◌, refl, [], ◌∷◌, ◌++◌, arith, ltb, length,
  length-append, if◌then◌else◌,
}
use yellowdb.Text.{Bytes}
use yellowdb.Errors.{Result, ok, raise, struct_error}

-- 256 to the power of the width
unfoldable pub capacity : ℕ → ℕ
capacity zero = 1
capacity (suc w) = capacity w * 256

unfoldable pub to_be : ℕ → ℕ → Bytes
to_be zero n = []
to_be (suc w) n = to_be w (n / 256) ++ n % 256 ∷ []

from_digits : ℕ → Bytes → ℕ
from_digits acc [] = acc
from_digits acc (b ∷ bs) = from_digits (acc * 256 + b) bs

unfoldable pub unpack : Bytes → ℕ
unfolding from_digits
unpack bs = from_digits 0 bs

unfoldable pub pack : ℕ → ℕ → Result Bytes
unfolding capacity to_be
pack w n = if ltb n (capacity w) then ok (to_be w n) else raise struct_error

from_digits-append :
    (acc b : ℕ) (bs : Bytes) → from_digits acc (bs ++ b ∷ []) ≡ from_digits acc bs * 256 + b
unfolding from_digits
from_digits-append acc b [] = refl
from_digits-append acc b (x ∷ bs) = from_digits-append (acc * 256 + x) b bs

pub length-to_be : (w n : ℕ) → length (to_be w n) ≡ w
unfolding to_be
length-to_be zero n = refl
length-to_be (suc w) n =
    omega (arith, length-append (to_be w (n / 256)) (n % 256 ∷ []), length-to_be w (n / 256))

unpack-to_be : (w n : ℕ) → n < capacity w → unpack (to_be w n) ≡ n
unfolding capacity to_be unpack
unpack-to_be zero n h = omega arith
unpack-to_be (suc w) n h = omega (
  arith,
  from_digits-append 0 (n % 256) (to_be w (n / 256)),
  unpack-to_be w (n / 256) (omega arith),
)

-- A packed number has the width of its format, and unpacks to itself.
pub unpack-pack :
    (w n : ℕ) (bs : Bytes) → pack w n ≡ ok bs → (length bs ≡ w) × (unpack bs ≡ n) × (n < capacity w)
unfolding pack
unpack-pack w n bs h = ground (arith, length-to_be w n, unpack-to_be w n)

-- Packing succeeds exactly below the capacity.
pub pack-ok : (w n : ℕ) → n < capacity w → pack w n ≡ ok (to_be w n)
unfolding pack
pack-ok w n h = ground arith
