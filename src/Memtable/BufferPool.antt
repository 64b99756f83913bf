-- ===== src/Memtable/BufferPool.antt =====
-- `BufferPool`. `_buffers` is written by the constructor and never read again.
use yellowdb.Prelude.{
  ℕ, ◌≤◌, ◌<◌, ◌≡◌, ◌≢◌, refl, List, [], ◌∷◌, ◌++◌, Option, none, some, ltb, ◌==◌, length,
  length-append, replicate, arith, if◌then◌else◌,
}
use yellowdb.Text.{Bytes}

pub record BufferPool : Type 0 where
  pub buffer_size : ℕ
  pub pool_size : ℕ
  pub available : List Bytes

-- bytearray(n)
unfoldable pub bytearray : ℕ → Bytes
bytearray n = replicate n 0

unfoldable pub init : ℕ → ℕ → BufferPool
init buffer_size pool_size = record {
  buffer_size = buffer_size;
  pool_size = pool_size;
  available = replicate pool_size (bytearray buffer_size);
}

-- `l.pop()`: the last element, and the list without it
unfoldable pub pop : List Bytes → Option (Bytes × List Bytes)
pop [] = none
pop (b ∷ []) = some (b, [])
pop (b ∷ c ∷ bs) = elim (pop (c ∷ bs)) [ none ↦ none | some (x, rest) ↦ some (x, b ∷ rest) ]

unfoldable pub acquire : BufferPool → Bytes × BufferPool
unfolding bytearray
acquire p = elim (pop p.available) [
  | none ↦ (bytearray p.buffer_size, p)
  | some (b, rest) ↦ (b, record p { available = rest })
]

-- `buffer.clear()` leaves a bytearray of length 0
unfoldable pub release : Bytes → BufferPool → BufferPool
release buffer p =
    if length buffer == p.buffer_size
    then if ltb (length p.available) p.pool_size
      then record p { available = p.available ++ [] ∷ [] }
      else p
    else p

pop-append : (bs : List Bytes) (b : Bytes) → pop (bs ++ b ∷ []) ≡ some (b, bs)
unfolding pop
pop-append [] b = refl
pop-append (c ∷ []) b = refl
pop-append (c ∷ d ∷ bs) b = rw (pop-append (d ∷ bs) b) refl

-- The pool never holds more buffers than its size.
pub length-release-le :
    (b : Bytes) (p : BufferPool)
    → length p.available ≤ p.pool_size
    → length (release b p).available ≤ (release b p).pool_size
unfolding release
length-release-le b p h = ground (arith, length-append p.available ([] ∷ []))

-- When the pool takes back a buffer of its size, the next acquire returns an empty bytearray, which
-- is not of the configured size if that is positive.
pub acquire-release :
    (b : Bytes) (p : BufferPool)
    → length b ≡ p.buffer_size
    → length p.available < p.pool_size
    → 0 < p.buffer_size
    → ((acquire (release b p)).0 ≡ []) × (length (acquire (release b p)).0 ≢ p.buffer_size)
unfolding acquire release
acquire-release b p h k pos = ground (arith, pop-append p.available [])
