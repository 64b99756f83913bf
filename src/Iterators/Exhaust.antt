-- ===== src/Iterators/Exhaust.antt =====
-- Calls of `next` on a cursor, up to the end.
use yellowdb.Prelude.{
  ℕ, zero, suc, ◌+◌, ◌≡◌, refl, sym, ap, subst, Option, none, some, List, [], ◌∷◌, map, drop,
  length, arith,
}
use yellowdb.Errors.{ok, raise, index_error}
use yellowdb.Text.{Key, Bytes}
use yellowdb.Items.{item}
use yellowdb.Iterators.Defs.{Cursor, next, end_next, reset, count}

-- what so many calls of `next` give, and the cursor behind them
unfoldable pub take_from : ℕ → Cursor → List (Option (Key × Bytes)) × Cursor
take_from zero c = ([], c)
take_from (suc n) c = let rest = take_from n (next c).1 in ((next c).0 ∷ rest.0, rest.1)

module _ {A : Type 0} where
  item-drop :
      (i : ℕ) (xs ys : List A) (x : A)
      → drop i xs ≡ x ∷ ys
      → (item i xs ≡ ok x) × (drop (i + 1) xs ≡ ys)
  unfolding item
  item-drop zero [] ys x h = absurd (cc)
  item-drop zero (y ∷ xs) ys x h = (cc, cc)
  item-drop (suc i) [] ys x h = absurd (cc)
  item-drop (suc i) (y ∷ xs) ys x h =
      let (a, b) = item-drop i xs ys x h in
      let e : suc i + 1 ≡ suc (i + 1) = omega arith in (a, rw e b)

  item-drop_nil : (i : ℕ) (xs : List A) → drop i xs ≡ [] → item i xs ≡ raise index_error
  unfolding item
  item-drop_nil i [] h = refl
  item-drop_nil zero (x ∷ xs) h = absurd (cc)
  item-drop_nil (suc i) (x ∷ xs) h = item-drop_nil i xs h

next-end : (c : Cursor) → drop c.current_index c.entries ≡ [] → next c ≡ (none, c)
unfolding next end_next
next-end c h = rw (item-drop_nil c.current_index c.entries h) refl

next-step :
    (c : Cursor) (y : Key × Bytes) (ys : List (Key × Bytes))
    → drop c.current_index c.entries ≡ y ∷ ys
    → next c ≡ (some y, record c { current_index = c.current_index + 1 })
unfolding next end_next
next-step c y ys h = rw ((item-drop c.current_index c.entries ys y h).0) refl

take_rest :
    (ys : List (Key × Bytes)) (c : Cursor)
    → drop c.current_index c.entries ≡ ys
    → ((take_from (length ys) c).0 ≡ map some ys)
      × (next (take_from (length ys) c).1 ≡ (none, (take_from (length ys) c).1))
unfolding take_from
take_rest [] c h = (refl, next-end c h)
take_rest (y ∷ ys) c h =
    let s = next-step c y ys h in
    let c' = record c { current_index = c.current_index + 1 } in
    let (e, f) = take_rest ys c' (item-drop c.current_index c.entries ys y h).1 in
    subst
      (λ (r : Option (Key × Bytes) × Cursor).
        (r.0 ∷ (take_from (length ys) r.1).0 ≡ some y ∷ map some ys)
        × (next (take_from (length ys) r.1).1 ≡ (none, (take_from (length ys) r.1).1)))
      (sym s) (ap (λ es. some y ∷ es) e, f)

-- After a reset as many calls of next as count says give all entries of the cursor in order, and
-- every further call gives StopIteration and changes nothing.
pub take_from-reset :
    (c : Cursor)
    → ((take_from (count c) (reset c)).0 ≡ map some c.entries)
      × (next (take_from (count c) (reset c)).1 ≡ (none, (take_from (count c) (reset c)).1))
unfolding count reset
take_from-reset c = take_rest c.entries (reset c) refl
