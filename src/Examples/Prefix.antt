-- ===== src/Examples/Prefix.antt =====
-- The loops over the entries of a scan, which end at the first key without the prefix.
use yellowdb.Prelude.{
  ◌≡◌, refl, sym, ap, ◌∙◌, Bool, true, false, List, [], ◌∷◌, ◌++◌, All, arith, ◌==◌, if◌then◌else◌,
  Bool-cases, inl, inr,
}
use yellowdb.Errors.{Result, ok, ◌>>=◌}
use yellowdb.Text.{Key, Bytes}
use yellowdb.Text.Order.{key_lt, key_le}
use yellowdb.Memtable.Sorted.{IsSorted, IsAbove}

-- key.startswith(prefix)
unfoldable pub starts_with : Key → Key → Bool
starts_with [] key = true
starts_with (x ∷ xs) [] = false
starts_with (x ∷ xs) (y ∷ ys) = let rest = starts_with xs ys in if x == y then rest else false

-- the entries for which the loop does not meet the `break`
unfoldable pub until_break : Key → List (Key × Bytes) → List (Key × Bytes)
until_break prefix [] = []
until_break prefix ((k, v) ∷ es) =
    let rest = until_break prefix es in if starts_with prefix k then (k, v) ∷ rest else []

-- the entries whose key has the prefix
unfoldable pub with_prefix : Key → List (Key × Bytes) → List (Key × Bytes)
with_prefix prefix [] = []
with_prefix prefix ((k, v) ∷ es) =
    let rest = with_prefix prefix es in if starts_with prefix k then (k, v) ∷ rest else rest

-- Behind a key from the prefix on that does not have it, no key has it.
starts_with-lt :
    (prefix j k : Key)
    → key_le prefix j ≡ true
    → key_lt j k ≡ true
    → starts_with prefix j ≡ false
    → starts_with prefix k ≡ false
unfolding starts_with key_lt
starts_with-lt [] j k a b c = cc
starts_with-lt (x ∷ xs) j [] a b c = refl
starts_with-lt (x ∷ xs) [] (z ∷ zs) a b c = cc
starts_with-lt (x ∷ xs) (y ∷ ys) (z ∷ zs) a b c = ground (arith, starts_with-lt xs ys zs)

none_behind :
    (prefix j : Key) (es : List (Key × Bytes))
    → key_le prefix j ≡ true
    → starts_with prefix j ≡ false
    → IsAbove j es
    → IsSorted es
    → with_prefix prefix es ≡ []
unfolding with_prefix
none_behind prefix j [] a f b s = refl
none_behind prefix j ((k, v) ∷ es) a f (l, b) (b', s) =
    rw (starts_with-lt prefix j k a l f) (none_behind prefix j es a f b s)

-- In key order, from the prefix on, the keys with the prefix come first.
pub until_break-eq-with_prefix :
    (prefix : Key) (es : List (Key × Bytes))
    → IsSorted es
    → All (λ (e : Key × Bytes). key_le prefix e.0 ≡ true) es
    → until_break prefix es ≡ with_prefix prefix es
unfolding until_break with_prefix
until_break-eq-with_prefix prefix [] s a = refl
until_break-eq-with_prefix prefix ((k, v) ∷ es) (b, s) (l, a) =
    elim (Bool-cases (starts_with prefix k)) [
      | inl q ↦ rw (q, until_break-eq-with_prefix prefix es s a) refl
      | inr q ↦ rw q (sym (none_behind prefix k es l q b s))
    ]

-- A prefix and what follows it.
pub starts_with-append : (prefix s : Key) → starts_with prefix (prefix ++ s) ≡ true
unfolding starts_with
starts_with-append [] s = refl
starts_with-append (x ∷ xs) s = ground (arith, starts_with-append xs s)

module _ {X : Type 0} (round : Bytes → Result (List X)) where
  -- `for key, value in …: if not key.startswith(prefix): break; …`, where `round` is the rest of the
  -- body, with what it appends
  unfoldable pub gather : Key → List (Key × Bytes) → Result (List X)
  unfolding starts_with
  gather prefix [] = ok []
  gather prefix ((k, v) ∷ es) =
      let rest = gather prefix es in
      if starts_with prefix k then (do xs ← round v; ys ← rest; ok (xs ++ ys)) else ok []

  -- the loop with no `break`
  unfoldable pub each : List (Key × Bytes) → Result (List X)
  each [] = ok []
  each ((k, v) ∷ es) = do xs ← round v; ys ← each es; ok (xs ++ ys)

  gather-eq-each :
      (prefix : Key) (es : List (Key × Bytes)) → gather prefix es ≡ each (until_break prefix es)
  unfolding gather each until_break
  gather-eq-each prefix [] = refl
  gather-eq-each prefix ((k, v) ∷ es) = elim (Bool-cases (starts_with prefix k)) [
    | inl q ↦ rw (q, gather-eq-each prefix es) refl
    | inr q ↦ rw q refl
  ]

  -- In key order, from the prefix on, the loop goes through all entries with the prefix.
  pub gather_lem :
      (prefix : Key) (es : List (Key × Bytes))
      → IsSorted es
      → All (λ (e : Key × Bytes). key_le prefix e.0 ≡ true) es
      → gather prefix es ≡ each (with_prefix prefix es)
  gather_lem prefix es s a =
      gather-eq-each prefix es ∙ ap each (until_break-eq-with_prefix prefix es s a)
