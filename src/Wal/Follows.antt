-- ===== src/Wal/Follows.antt =====
-- States of the log that follow from one another, without a new entry or with one.
use yellowdb.Prelude.{ℕ, ◌≡◌, refl, sym, ap, ◌∙◌, subst, false, inl, inr, arith}
use yellowdb.Errors.{ok, raise, wal_error, Result-cases}
use yellowdb.Config.{Config}
use yellowdb.Serializer.Defs.{Zlib}
use yellowdb.Serializer.KeyCache.{KeyCache, IsCoherent}
use yellowdb.Serializer.Write.{record_bytes}
use yellowdb.Wal.Defs.{Wal, rotate, write}
use yellowdb.Wal.Recover.{Entry}
use yellowdb.Wal.Log.{IsLog}
use yellowdb.Wal.Flushes.{Same}
use yellowdb.Wal.Refine.{Grown, Same-trans, counted_lem}
use yellowdb.Wal.Writes.{write_lem, write-raise}
use yellowdb.Wal.Closing.{rotate_lem}
use yellowdb.Wal.Settled.{IsSettled, IsBounded, rotate-IsSettled}
use yellowdb.Wal.Bounded.{counted-IsSettled, write-IsSettled}

module _ (z : Zlib) (config : Config) where
  -- settled, with a batch that is not full
  abbrev pub IsSafe : Wal → Type 0
  IsSafe w = IsSettled z config w × IsBounded z config w

  -- the same log, and as safe
  abbrev pub Follows : Wal → Wal → Type 0
  Follows w u = Same z config w u × (IsSafe w → IsSafe u)

  pub Follows-refl : (w : Wal) → IsLog z config w → Follows w w
  Follows-refl w v = ((v, refl), λ s. s)

  pub Follows-trans : (u v w : Wal) → Follows u v → Follows v w → Follows u w
  Follows-trans u v w a b = (Same-trans z config u v w a.0 b.0, λ s. b.1 (a.1 s))

  pub counted-Follows :
      (w : Wal) (n : ℕ) (keys : KeyCache)
      → IsLog z config w
      → IsCoherent keys
      → Follows w (record w { entry_count = n; keys = keys })
  counted-Follows w n keys v k =
      (counted_lem z config w n keys v k, λ s. (counted-IsSettled z config w n keys s.0, s.1))

  pub rotate-Follows :
      (w : Wal)
      → IsLog z config w
      → (u : Wal) × (rotate config w ≡ ok (w.current_wal_file, u)) × Follows w u
  rotate-Follows w v =
      let (u, e, l, same, _) = rotate_lem z config w v in
      (
        u,
        e,
        (
          (l, same),
          λ s.
              let (t, n) = rotate-IsSettled z config w u w.current_wal_file s.0 e in
              (t, omega (arith, n)),
        ),
      )

  -- one entry more in the log, and as safe
  abbrev pub Extends : Wal → Wal → Entry → Type 0
  Extends w u e = Grown z config w u e × (IsSafe w → IsSafe u)

  -- An entry that is written without an exception is in the log.
  pub write-Extends :
      (w u : Wal) (e : Entry)
      → IsLog z config w
      → write z config e.key e.value e.timestamp e.deleted w ≡ (ok tt, u)
      → Extends w u e
  write-Extends w u e v h =
      elim (Result-cases (record_bytes z config e.key e.value e.timestamp e.deleted false)) [
        | inl (x, b) ↦
            let (_, q, _, _) = write-raise z config w e.key e.value e.timestamp e.deleted x v b in
            absurd (let t : raise wal_error ≡ ok tt = ap (λ r. r.0) (sym q ∙ h) in cc)
        | inr (bytes, b) ↦
            let (_, q, l, g) = write_lem z config w e.key e.value e.timestamp e.deleted bytes v b in
            (
              subst (λ x. Grown z config w x e) (ap (λ r. r.1) (sym q ∙ h)) (l, g),
              λ s. write-IsSettled z config w u e bytes v s.0 b h,
            )
      ]
