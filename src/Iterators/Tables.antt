-- ===== src/Iterators/Tables.antt =====
-- `range_query` of a table whose records are in key order.
use yellowdb.Prelude.{
  ℕ, zero, suc, ◌<◌, ◌≡◌, refl, sym, ap, ◌∙◌, Bool, true, false, some, List, [], ◌∷◌, ◌++◌, All,
  length, length-append, drop, drop-append_self, arith, ◌⊎◌, inl, inr, Bool-cases,
}
use yellowdb.Errors.{ok}
use yellowdb.Text.{Key, Bytes}
use yellowdb.Text.Order.{key_le, key_lt, key_lt_trans}
use yellowdb.Dict.{lookup}
use yellowdb.Index.Keys.{key_le_trans}
use yellowdb.Index.Defs as Index
use yellowdb.Index.Range.{IsLeastFrom, lookup-has, get_key_range_lem}
use yellowdb.Serializer.RoundTrip.{read-record_bytes, length-record_bytes}
use yellowdb.Serializer.Reader.{read_exact}
use yellowdb.Serializer.Read.{read_record_from_file}
use yellowdb.Wal.Recover.{Entry}
use yellowdb.SsTable.Defs.{SsTable, bytes_of, scan_all}
use yellowdb.SsTable.Files.{range_query, collect_range}
use yellowdb.SsTable.Scan.{Holds, nil, cons, as_read, Holds-append, scan_all-Holds}
use yellowdb.SsTable.Lookup.{IsWritten}
use yellowdb.Platform.{Platform}
use yellowdb.Iterators.Defs.{where_key}
use yellowdb.Iterators.Listed.{within}

abbrev AllAbove : Key → List Entry → Type 0
AllAbove k = All (λ e. key_lt k e.key ≡ true)

-- in strictly increasing key order
abbrev pub InKeyOrder : List Entry → Type 0
InKeyOrder [] = Unit
InKeyOrder (e ∷ es) = AllAbove e.key es × InKeyOrder es

pub where_key-append :
    (test : Key → Bool) (es fs : List Entry)
    → where_key test (es ++ fs) ≡ where_key test es ++ where_key test fs
unfolding where_key
where_key-append test [] fs = refl
where_key-append test (e ∷ es) fs = ground (arith, where_key-append test es fs)

pub where_key-none :
    (test : Key → Bool) (es : List Entry)
    → All (λ (e : Entry). test e.key ≡ false) es
    → where_key test es ≡ []
unfolding where_key
where_key-none test [] a = refl
where_key-none test (e ∷ es) (x, a) = rw x (where_key-none test es a)

-- the records in front of one have smaller keys, and those behind it are in order
split-InKeyOrder :
    (es : List Entry) (e : Entry) (fs : List Entry)
    → InKeyOrder (es ++ e ∷ fs)
    → All (λ (x : Entry). key_lt x.key e.key ≡ true) es × InKeyOrder (e ∷ fs)
split-InKeyOrder [] e fs s = (tt, s)
split-InKeyOrder (x ∷ es) e fs (a, s) =
    let (b, t) = split-InKeyOrder es e fs s in ((last x.key es a, b), t)
  where
    last : (k : Key) (es : List Entry) → AllAbove k (es ++ e ∷ fs) → key_lt k e.key ≡ true
    last k [] (h, _) = h
    last k (y ∷ es) (_, a) = last k es a

lt_self : (n : ℕ) → n < suc n
lt_self n = omega arith

module _ (start_key end_key : Key) where
  -- behind the end of the range there is nothing of it
  behind :
      (k : Key) (es : List Entry)
      → key_lt end_key k ≡ true
      → AllAbove k es
      → All (λ (e : Entry). within start_key end_key e.key ≡ false) es
  behind k [] h a = tt
  behind k (e ∷ es) h (x, a) = (ground (arith, key_lt_trans end_key k e.key), behind k es h a)

  module _ (p : Platform) where
    collect_range-Holds :
        (fuel : ℕ) {es : List Entry} {bs : Bytes}
        → Holds p.z p.config es bs
        → InKeyOrder es
        → length bs < fuel
        → collect_range p.z start_key end_key fuel bs ≡ where_key (within start_key end_key) es
    unfolding collect_range where_key read_record_from_file read_exact
    collect_range-Holds zero x s h = absurd (omega arith)
    collect_range-Holds (suc fuel) nil s h = refl
    collect_range-Holds (suc fuel) (cons k v t d c {b} {es} {bs} q x) (a, s) h =
        let lt : length bs < fuel =
          omega (arith, length-append b bs, length-record_bytes p.z p.config k v t d c q) in
        let ih = collect_range-Holds fuel x s lt in
        rw (read-record_bytes p.z p.config k v t d c b bs q, collect_range)
          (elim (Bool-cases (key_lt k start_key)) [
            | inl l ↦ rw l ih
            | inr l ↦ elim (Bool-cases (key_lt end_key k)) [
              | inl g ↦
                  rw (l, g) (sym (where_key-none (within start_key end_key) es (behind k es g a)))
              | inr g ↦ rw (l, g) (ap (◌∷◌ (as_read p.z p.config k v t d c)) ih)
            ]
          ])

    -- A record from `start_key` on has an indexed key between `start_key` and its own key.
    abbrev pub IsReached : SsTable → Entry → Type 0
    IsReached t e =
        (key_le start_key e.key ≡ false)
        ⊎ ((x : Key) × (o : ℕ) × (lookup x t.index.keys ≡ some o)
            × (key_le start_key x ≡ true)
            × (key_le x e.key ≡ true))

    range_query-collect :
        (t : SsTable) (o last : ℕ)
        → Index.get_key_range start_key end_key t.index ≡ ok (o, last)
        → range_query p.z start_key end_key t
          ≡ collect_range p.z start_key end_key
              (suc (length (drop o (bytes_of t.content))))
              (drop o (bytes_of t.content))
    unfolding range_query
    range_query-collect t o last g = rw (g, range_query) refl

    module _ (t : SsTable) (w : IsWritten p.z p.config p.md5 t) where
      -- A record in front of the offset is in front of the range.
      not_reached :
          (x : Key)
          → IsLeastFrom t.index w.complete.valid start_key x
          → (e : Entry) → key_lt e.key x ≡ true
          → IsReached t e
          → within start_key end_key e.key ≡ false
      not_reached x c e lt (inl n) = ground (arith, n)
      not_reached x (inl (le, least)) e lt (inr (y, q, l, a, b)) =
          let h = lookup-has t.index w.complete.valid y q l in
          let c = key_le_trans x y e.key (least y h a) b in absurd (let r = rw lt at c in cc)
      not_reached x (inr none_left) e lt (inr (y, q, l, a, b)) =
          let h = lookup-has t.index w.complete.valid y q l in let n = none_left y h in absurd (cc)

      all_not_reached :
          (x : Key)
          → IsLeastFrom t.index w.complete.valid start_key x
          → (es fs : List Entry) → All (λ (e : Entry). key_lt e.key x ≡ true) es
          → All (IsReached t) (es ++ fs)
          → All (λ (e : Entry). within start_key end_key e.key ≡ false) es
      all_not_reached x c [] fs a b = tt
      all_not_reached x c (e ∷ es) fs (lt, a) (y, b) =
          (not_reached x c e lt y, all_not_reached x c es fs a b)

      -- On a table that write_record wrote in key order, where each record from start_key on has
      -- an indexed key between start_key and its own, range_query returns exactly the records of
      -- the range, in order.
      pub range_query_lem :
          InKeyOrder (scan_all p.z t)
          → All (IsReached t) (scan_all p.z t)
          → range_query p.z start_key end_key t
            ≡ where_key (within start_key end_key) (scan_all p.z t)
      range_query_lem s r =
          let (o, last, g, found) = get_key_range_lem t.index w.complete.valid start_key end_key in
          let run = range_query-collect t o last g in
          elim found [
            | inl (z, _) ↦
                let all = scan_all-Holds p.z p.config w.entries t w.holds in
                let run' = rw z at run in
                run'
                ∙ collect_range-Holds _ w.holds (rw all at s) (omega arith)
                ∙ ap (where_key (within start_key end_key)) (sym all)
            | inr (x, l, c) ↦
                let b = w.points x o l in
                let e = as_read p.z p.config x b.value b.timestamp b.deleted b.compress in
                let suffix : Holds p.z p.config (e ∷ b.after) (b.bytes ++ b.rest) =
                  cons x b.value b.timestamp b.deleted b.compress b.written b.back in
                let whole = Holds-append p.z p.config b.front suffix in
                let all = scan_all-Holds p.z p.config _ t (rw b.split whole) in
                let s' = rw all at s in
                let r' = rw all at r in
                let (smaller, ordered) = split-InKeyOrder b.before e b.after s' in
                let front =
                  where_key-none (within start_key end_key) b.before
                    (all_not_reached x c b.before (e ∷ b.after) smaller r') in
                let at_offset : drop o (bytes_of t.content) ≡ b.bytes ++ b.rest =
                  rw b.split (drop-append_self o b.head (b.bytes ++ b.rest) b.size) in
                let run' = rw at_offset at run in
                run'
                ∙ collect_range-Holds (suc (length (b.bytes ++ b.rest))) suffix ordered
                    (lt_self (length (b.bytes ++ b.rest)))
                ∙ sym (
                    ap (where_key (within start_key end_key)) all
                    ∙ where_key-append (within start_key end_key) b.before (e ∷ b.after)
                    ∙ rw front refl)
          ]
