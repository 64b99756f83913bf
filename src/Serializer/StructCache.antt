-- ===== src/Serializer/StructCache.antt =====
-- `StructCache`: the class attribute `_cache`. `compile` is `struct.Struct`, and `S` are the objects
-- that it makes.
use yellowdb.Prelude.{◌≡◌, refl, Option, none, some, Option-cases, inl, inr, arith}
use yellowdb.Errors.{Result, ok, raise}
use yellowdb.Text.{Key}
use yellowdb.Text.Order.{key_eq_iff}
use yellowdb.Dict.{Dict, lookup, insert, lookup-insert}

module _ {S : Type 0} (compile : Key → Result S) where
  -- the assignment to `_cache[format_string]`, with what `struct.Struct` gives
  unfoldable pub remember : Key → Result S → Dict S → Result S × Dict S
  remember format_string (raise e) cache = (raise e, cache)
  remember format_string (ok s) cache = (ok s, insert format_string s cache)

  -- `_cache.get(format_string)` first
  unfoldable pub look_up : Key → Option S → Dict S → Result S × Dict S
  unfolding remember
  look_up format_string none cache = remember format_string (compile format_string) cache
  look_up format_string (some s) cache = (ok s, cache)

  unfoldable pub get_struct : Key → Dict S → Result S × Dict S
  unfolding look_up
  get_struct format_string cache = look_up format_string (lookup format_string cache) cache

  -- Each cached object is what its format compiles to.
  pub record IsCoherent (cache : Dict S) : Type 0 where
    pub at : (f : Key) (s : S) → lookup f cache ≡ some s → compile f ≡ ok s

  remember-IsCoherent :
      (f : Key) (r : Result S) (cache : Dict S)
      → compile f ≡ r
      → IsCoherent cache
      → ((remember f r cache).0 ≡ r) × IsCoherent (remember f r cache).1
  unfolding remember
  remember-IsCoherent f (raise e) cache h c = (refl, c)
  remember-IsCoherent f (ok s) cache h c = (
    refl,
    record {
      at = λ g t x. ground (arith, lookup-insert f g s cache, c.at g t, key_eq_iff f g, h, x);
    },
  )

  -- With a coherent cache get_struct returns what struct.Struct returns or raises, and the cache
  -- stays coherent.
  pub get_struct-eq-compile :
      (f : Key) (cache : Dict S)
      → IsCoherent cache
      → ((get_struct f cache).0 ≡ compile f) × IsCoherent (get_struct f cache).1
  unfolding get_struct look_up
  get_struct-eq-compile f cache c = elim (Option-cases (lookup f cache)) [
    | inl q ↦ rw q (remember-IsCoherent f (compile f) cache refl c)
    | inr (s, q) ↦ rw q (rw (c.at f s q) refl, c)
  ]
