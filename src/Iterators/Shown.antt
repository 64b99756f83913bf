-- ===== src/Iterators/Shown.antt =====
-- The entries of a cursor: in key order, without deletions.
use yellowdb.Prelude.{
  ◌≡◌, refl, ap, ◌∙◌, Bool, true, false, Option, none, some, List, [], ◌∷◌, map, arith,
  if◌then◌else◌, Bool-cases, inl, inr,
}
use yellowdb.Text.{Key, Bytes}
use yellowdb.Text.Order.{key_eq, key_eq_iff}
use yellowdb.Dict.{Dict, lookup, insert, lookup-insert}
use yellowdb.Dict.Distinct.{IsDistinct, or_else}
use yellowdb.Memtable.Sorted.{
  IsAbove, IsSorted, insert_sorted-IsSorted, lookup-insert_sorted, lookup-IsAbove,
}
use yellowdb.Memtable.Table.{MemtableEntry}
use yellowdb.Cache.Defs.{Version}
use yellowdb.Wal.Recover.{Entry}
use yellowdb.Compactor.Merge.{sorted_items}
use yellowdb.Compactor.Newest.{newest_from}
use yellowdb.Iterators.Defs.{to_entry, where_key, assign_all, live}

-- the value of a version that is no deletion
abbrev pub shown : Option Version → Option Bytes
shown none = none
shown (some v) = if v.deleted then none else some v.value

sorted_items-IsSorted : (d : Dict Version) → IsSorted (sorted_items d)
unfolding sorted_items
sorted_items-IsSorted [] = tt
sorted_items-IsSorted ((k, v) ∷ d) =
    insert_sorted-IsSorted k v (sorted_items d) (sorted_items-IsSorted d)

lookup-sorted_items : (j : Key) (d : Dict Version) → lookup j (sorted_items d) ≡ lookup j d
unfolding sorted_items lookup
lookup-sorted_items j [] = refl
lookup-sorted_items j ((k, v) ∷ d) =
    lookup-insert_sorted k j v (sorted_items d)
    ∙ ap (λ o. if key_eq k j then some v else o) (lookup-sorted_items j d)

live-IsAbove : (k : Key) (d : Dict Version) → IsAbove k d → IsAbove k (live d)
unfolding live
live-IsAbove k [] a = tt
live-IsAbove k ((j, v) ∷ d) a = elim (Bool-cases v.deleted) [
  | inl q ↦ rw q (live-IsAbove k d a.1)
  | inr q ↦ rw q (a.0, live-IsAbove k d a.1)
]

live-IsSorted : (d : Dict Version) → IsSorted d → IsSorted (live d)
unfolding live
live-IsSorted [] s = tt
live-IsSorted ((j, v) ∷ d) s = elim (Bool-cases v.deleted) [
  | inl q ↦ rw q (live-IsSorted d s.1)
  | inr q ↦ rw q (live-IsAbove j d s.0, live-IsSorted d s.1)
]

lookup-live : (j : Key) (d : Dict Version) → IsSorted d → lookup j (live d) ≡ shown (lookup j d)
unfolding live lookup
lookup-live j [] s = refl
lookup-live j ((k, v) ∷ d) s =
    let rest = lookup-live j d s.1 in
    elim (Bool-cases (key_eq k j)) [
      | inl p ↦
          let e : k ≡ j = (key_eq_iff k j).0 p in
          let n : lookup j (live d) ≡ none =
            rw (← e) (lookup-IsAbove k (live d) (live-IsAbove k d s.0)) in
          elim (Bool-cases v.deleted) [ inl q ↦ rw (q, p) n | inr q ↦ rw (q, p) refl ]
      | inr p ↦ elim (Bool-cases v.deleted) [ inl q ↦ rw (q, p) rest | inr q ↦ rw (q, p) rest ]
    ]

-- The list is sorted, and shows what the dictionary has.
pub live-sorted_items :
    (d : Dict Version)
    → IsSorted (live (sorted_items d))
      × ((j : Key) → lookup j (live (sorted_items d)) ≡ shown (lookup j d))
live-sorted_items d = (
  live-IsSorted (sorted_items d) (sorted_items-IsSorted d),
  λ j.
      lookup-live j (sorted_items d) (sorted_items-IsSorted d) ∙ ap shown (lookup-sorted_items j d),
)

abbrev pub held : Option MemtableEntry → Option Version
held none = none
held (some e) = some (record { value = e.value; timestamp = e.timestamp; deleted = e.deleted })

-- The entries that pass the test, in a dictionary whose keys are distinct, win.
pub lookup-assign_all :
    (test : Key → Bool) (j : Key) (d : Dict MemtableEntry) (m : Dict Version)
    → IsDistinct d
    → lookup j (assign_all (where_key test (map to_entry d)) m)
      ≡ (if test j then or_else (held (lookup j d)) (lookup j m) else lookup j m)
unfolding assign_all where_key lookup
lookup-assign_all test j [] m s = ground arith
lookup-assign_all test j ((k, e) ∷ d) m s =
    let v : Version = record { value = e.value; timestamp = e.timestamp; deleted = e.deleted } in
    elim (Bool-cases (key_eq k j)) [
      | inl p ↦
          let q : k ≡ j = (key_eq_iff k j).0 p in
          let n : lookup j d ≡ none = rw (← q) (s.0) in
          elim (Bool-cases (test j)) [
            | inl t ↦
                let t' : test k ≡ true = rw q t in
                rw (t', t, p)
                  (lookup-assign_all test j d (insert k v m) s.1
                    ∙ rw (t, n, lookup-insert k j v m, p) refl)
            | inr t ↦
                let t' : test k ≡ false = rw q t in
                rw (t', t) (lookup-assign_all test j d m s.1 ∙ rw t refl)
          ]
      | inr p ↦ elim (Bool-cases (test k)) [
        | inl t ↦
            rw (t, p)
              (lookup-assign_all test j d (insert k v m) s.1 ∙ rw (lookup-insert k j v m, p) refl)
        | inr t ↦ rw (t, p) (lookup-assign_all test j d m s.1)
      ]
    ]

pub newest_from-where_key :
    (test : Key → Bool) (j : Key) (es : List Entry) (best : Option Version)
    → newest_from j (where_key test es) best ≡ (if test j then newest_from j es best else best)
unfolding newest_from where_key
newest_from-where_key test j [] best = ground arith
newest_from-where_key test j (e ∷ es) best = elim (Bool-cases (key_eq e.key j)) [
  | inl p ↦
      let q : e.key ≡ j = (key_eq_iff e.key j).0 p in
      elim (Bool-cases (test j)) [
        | inl t ↦
            let t' : test e.key ≡ true = rw q t in
            rw (t', t) (newest_from-where_key test j es _ ∙ rw t refl)
        | inr t ↦
            let t' : test e.key ≡ false = rw q t in
            rw (t', t) (newest_from-where_key test j es _ ∙ rw t refl)
      ]
  | inr p ↦ elim (Bool-cases (test e.key)) [
    | inl t ↦ rw (t, newest_from, p) (newest_from-where_key test j es best)
    | inr t ↦ rw t (rw p (newest_from-where_key test j es best))
  ]
]
