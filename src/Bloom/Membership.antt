-- ===== src/Bloom/Membership.antt =====
-- `might_exist` after `add`, and `from_bytes` after `to_bytes`.
use yellowdb.Prelude.{
  ℕ, zero, suc, ◌*◌, ◌%◌, ◌<◌, ◌≡◌, ◌≢◌, refl, ap, ◌∙◌, true, some, List, [], ◌∷◌, All, length,
  arith,
}
use yellowdb.Errors.{Result, ok, ◌>>=◌, >>=-eq-ok}
use yellowdb.Config.{Config}
use yellowdb.Text.{Key, Bytes}
use yellowdb.Bloom.Defs.{
  BloomFilter, or_default, get_hashes, add, might_exist, to_bytes, from_bytes,
}
use yellowdb.Bloom.Laws.{IsValid, set_bits_lem, all_set-Lit, Lit-all_set, add_inv, add-IsValid}

All-map {ℓ κ μ} :
    {A : Type ℓ} {P : A → Type κ} {Q : A → Type μ}
    → ((a : A) → P a → Q a)
    → (xs : List A) → All P xs
    → All Q xs
All-map f [] a = tt
All-map f (x ∷ xs) a = (f x a.0, All-map f xs a.1)

module _ (md5 : Bytes → ℕ) where
  -- `_get_hashes` depends on the size and the number of hashes only
  get_hashes_congr :
      (f f' : BloomFilter) (key : Key)
      → f'.size ≡ f.size
      → f'.num_hashes ≡ f.num_hashes
      → get_hashes md5 f' key ≡ get_hashes md5 f key
  unfolding get_hashes
  get_hashes_congr f f' key s n = rw (s, n) refl

  -- What was added is found.
  pub might_exist-add :
      (key : Key) {f f' : BloomFilter}
      → IsValid f
      → add md5 key f ≡ ok f'
      → might_exist md5 key f' ≡ ok true
  unfolding might_exist
  might_exist-add key {f} {f'} v h =
      let (hs, e, p, s, n) = add_inv md5 key f f' v h in
      let (_, _, _, lit) = set_bits_lem hs f.bits f'.bits v.bytes p in
      rw (get_hashes_congr f f' key s n) (rw e (all_set-Lit hs f'.bits lit))

  -- What was found before an `add` is found after it.
  pub might_exist-add_mono :
      (key j : Key) {f f' : BloomFilter}
      → IsValid f
      → add md5 key f ≡ ok f'
      → might_exist md5 j f ≡ ok true
      → might_exist md5 j f' ≡ ok true
  unfolding might_exist
  might_exist-add_mono key j {f} {f'} v h found =
      let (hs, e, p, s, n) = add_inv md5 key f f' v h in
      let (_, _, keep, _) = set_bits_lem hs f.bits f'.bits v.bytes p in
      let (hj, ej, lj) = >>=-eq-ok (get_hashes md5 f j) _ found in
      rw (get_hashes_congr f f' j s n)
        (rw ej (all_set-Lit hj f'.bits (All-map keep hj (Lit-all_set hj f.bits lj))))

  -- `add` of each key in turn
  unfoldable pub add_all : List Key → BloomFilter → Result BloomFilter
  add_all [] f = ok f
  add_all (k ∷ ks) f = do f' ← add md5 k f; add_all ks f'

  kept_by_all :
      (ks : List Key) (j : Key) {f f' : BloomFilter}
      → IsValid f
      → add_all ks f ≡ ok f'
      → might_exist md5 j f ≡ ok true
      → might_exist md5 j f' ≡ ok true
  unfolding add_all
  kept_by_all [] j {f} {f'} v h found = let e : f ≡ f' = ground arith in rw (← e) found
  kept_by_all (k ∷ ks) j {f} v h found =
      let (g, p, q) = >>=-eq-ok (add md5 k f) _ h in
      kept_by_all ks j (add-IsValid md5 k v p) q (might_exist-add_mono k j v p found)

  -- After any sequence of add calls on a valid filter that do not raise, might_exist returns True
  -- for every added key, whatever the MD5 digests are.
  pub no_false_negatives :
      (ks : List Key) {f f' : BloomFilter}
      → IsValid f
      → add_all ks f ≡ ok f'
      → All (λ k. might_exist md5 k f' ≡ ok true) ks
  unfolding add_all
  no_false_negatives [] v h = tt
  no_false_negatives (k ∷ ks) {f} v h =
      let (g, p, q) = >>=-eq-ok (add md5 k f) _ h in
      let vg = add-IsValid md5 k v p in
      (kept_by_all ks k vg q (might_exist-add k v p), no_false_negatives ks vg q)

or_default_pos : (n d : ℕ) → 0 < n → or_default (some n) d ≡ n
or_default_pos zero d h = absurd (omega arith)
or_default_pos (suc n) d h = refl

from_bytes_lem :
    (config : Config) (bytes : Bytes) (n : ℕ)
    → 0 < length bytes
    → from_bytes config bytes (some (suc n))
      ≡ record { size = length bytes * 8; num_hashes = suc n; bits = bytes }
unfolding from_bytes
from_bytes_lem config bytes n h =
    let e = or_default_pos (length bytes * 8) config.bloom_filter_size (omega arith) in rw e refl

-- For a valid filter with a positive number of hashes, which from_bytes is given: if its size is a
-- multiple of 8 it comes back from to_bytes by from_bytes as it was, and if not, with another size.
pub from_bytes-to_bytes :
    (config : Config) (f : BloomFilter) (n : ℕ)
    → IsValid f
    → f.num_hashes ≡ suc n
    → (f.size % 8 ≡ 0 → from_bytes config (to_bytes f) (some (suc n)) ≡ f)
      × (f.size % 8 ≢ 0 → (from_bytes config (to_bytes f) (some (suc n))).size ≢ f.size)
unfolding to_bytes
from_bytes-to_bytes config f n v e =
    let l = from_bytes_lem config f.bits n (omega (arith, v.sized, v.positive)) in
    (
      λ m. let q : length f.bits * 8 ≡ f.size = omega (arith, v.sized) in l ∙ rw (q, ← e) refl,
      λ m p. absurd (omega (arith, v.sized, ap (λ (g : BloomFilter). g.size) l)),
    )
