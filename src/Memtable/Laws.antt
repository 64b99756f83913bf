-- ===== src/Memtable/Laws.antt =====
-- The invariant of the memtable, `put` and `get`.
use yellowdb.Prelude.{
  ℕ, ◌+◌, ◌-◌, ◌≤◌, ◌≡◌, refl, Bool, true, Option, none, some, [], ◌∷◌, arith, length, Option-cases,
  Bool-cases, inl, inr, if◌then◌else◌,
}
use yellowdb.Errors.{ok, raise, >>=-eq-ok}
use yellowdb.Text.{Key, Bytes}
use yellowdb.Text.Order.{key_lt, key_eq, key_eq_iff, key_lt_irrefl}
use yellowdb.Dict.{Dict, lookup}
use yellowdb.Serializer.KeyCache.{encode_key}
use yellowdb.Memtable.Sorted.{
  IsSorted, IsAbove-trans, insert_sorted, insert_sorted-IsSorted, lookup-insert_sorted,
  lookup-IsAbove,
}
use yellowdb.Memtable.SortedDict.{SortedDict}
use yellowdb.Memtable.Table.{MemtableEntry, entry, entry_bytes, old_bytes, Memtable, new, put, get}

-- the size of an entry in bytes, 0 if its key cannot be encoded
unfoldable pub bytes_of : MemtableEntry → ℕ
bytes_of e = elim (entry_bytes e.key e.value) [ ok n ↦ n | raise _ ↦ 0 ]

unfoldable pub total_bytes : Dict MemtableEntry → ℕ
total_bytes [] = 0
total_bytes ((k, e) ∷ d) = bytes_of e + total_bytes d

-- Each entry stands under its own key, and that key can be encoded.
abbrev pub IsFiled : Dict MemtableEntry → Type 0
IsFiled [] = Unit
IsFiled ((k, e) ∷ d) = (e.key ≡ k) × (entry_bytes e.key e.value ≡ ok (bytes_of e)) × IsFiled d

-- the part of the size that an assignment replaces
abbrev replaced : Option MemtableEntry → ℕ
replaced none = 0
replaced (some e) = bytes_of e

total_bytes-insert_sorted :
    (k : Key) (e : MemtableEntry) (d : Dict MemtableEntry)
    → IsSorted d
    → total_bytes (insert_sorted k e d) + replaced (lookup k d) ≡ total_bytes d + bytes_of e
unfolding total_bytes insert_sorted lookup
total_bytes-insert_sorted k e [] s = omega arith
total_bytes-insert_sorted k e ((j, w) ∷ d) s = ground (
  arith,
  key_eq_iff j k,
  key_eq_iff k j,
  key_lt_irrefl j,
  λ (p : key_lt k j ≡ true). lookup-IsAbove k d (IsAbove-trans k j d p s.0),
  lookup-IsAbove j d s.0,
  total_bytes-insert_sorted k e d s.1,
)

IsFiled-insert_sorted :
    (k : Key) (e : MemtableEntry) (d : Dict MemtableEntry)
    → (e.key ≡ k) × (entry_bytes e.key e.value ≡ ok (bytes_of e))
    → IsFiled d
    → IsFiled (insert_sorted k e d)
unfolding insert_sorted
IsFiled-insert_sorted k e [] h f = (h.0, h.1, tt)
IsFiled-insert_sorted k e ((j, w) ∷ d) h f = elim (Bool-cases (key_lt k j)) [
  | inl p ↦ rw p (h.0, h.1, f)
  | inr p ↦ rw p (elim (Bool-cases (key_eq k j)) [
    | inl q ↦ rw q (h.0, h.1, f.2)
    | inr q ↦ rw q (f.0, f.1, IsFiled-insert_sorted k e d h f.2)
  ])
]

-- what a lookup finds is filed under the key
filed_at :
    (k : Key) (d : Dict MemtableEntry) (e : MemtableEntry)
    → IsFiled d
    → lookup k d ≡ some e
    → entry_bytes e.key e.value ≡ ok (bytes_of e)
unfolding lookup
filed_at k [] e f h = cc
filed_at k ((j, w) ∷ d) e f h = elim (Bool-cases (key_eq j k)) [
  | inl p ↦ let q : w ≡ e = ground arith in rw (← q) f.1
  | inr p ↦ filed_at k d e f.2 (ground arith)
]

replaced-le-total_bytes : (k : Key) (d : Dict MemtableEntry) → replaced (lookup k d) ≤ total_bytes d
unfolding lookup total_bytes
replaced-le-total_bytes k [] = omega arith
replaced-le-total_bytes k ((j, w) ∷ d) = ground (arith, replaced-le-total_bytes k d)

entry_bytes-bytes_of :
    (e : MemtableEntry) (n : ℕ) → entry_bytes e.key e.value ≡ ok n → bytes_of e ≡ n
unfolding bytes_of
entry_bytes-bytes_of e n h = rw (h, bytes_of) refl

module _ (sd : SortedDict MemtableEntry) where
  -- The entries are in strictly increasing order of their keys, each stands under its own key, and
  -- `_size` is the sum of the sizes of keys and values.
  pub record IsValid (m : Memtable sd) : Type 0 where
    pub sorted : IsSorted (sd.items m.entries)
    pub filed : IsFiled (sd.items m.entries)
    pub counted : m.size ≡ total_bytes (sd.items m.entries)

  pub new-IsValid : IsValid (new sd)
  unfolding new total_bytes
  new-IsValid = record {
    sorted = rw (sd.items-empty) tt;
    filed = rw (sd.items-empty) tt;
    counted = rw (sd.items-empty) refl;
  }

  -- the table after an entry of `n` bytes is put
  abbrev applied : MemtableEntry → ℕ → Memtable sd → Memtable sd
  applied e n m = record {
    entries = sd.assign m.entries e.key e;
    size = m.size + n - replaced (lookup e.key (sd.items m.entries));
    entry_count = m.entry_count + 1;
  }

  old_bytes-get :
      (key : Key) (m : Memtable sd)
      → IsValid m
      → old_bytes (sd.get m.entries key) ≡ ok (replaced (lookup key (sd.items m.entries)))
  unfolding old_bytes
  old_bytes-get key m v = rw (sd.get-items) (elim (Option-cases (lookup key (sd.items m.entries))) [
    | inl e ↦ rw (e, old_bytes) refl
    | inr (x, e) ↦ rw (e, old_bytes) (filed_at key (sd.items m.entries) x v.filed e)
  ])

  module _ (key : Key) (value : Bytes) (timestamp : ℕ) (deleted : Bool) where
    pub put_inv :
        {m m' : Memtable sd}
        → IsValid m
        → put sd key value timestamp deleted m ≡ ok m'
        → (n : ℕ) × (entry_bytes key value ≡ ok n)
          × (m' ≡ applied (entry key value timestamp deleted) n m)
    unfolding put
    put_inv {m} v h =
        let (old, e, h1) = >>=-eq-ok (old_bytes (sd.get m.entries key)) _ h in
        let (n, e', h2) = >>=-eq-ok (entry_bytes key value) _ h1 in
        (n, e', ground (arith, old_bytes-get key m v))

    pub put-IsValid :
        {m m' : Memtable sd} → IsValid m → put sd key value timestamp deleted m ≡ ok m' → IsValid m'
    put-IsValid {m} v h =
        let (n, e, p) = put_inv v h in
        let x = entry key value timestamp deleted in
        let b : bytes_of x ≡ n = entry_bytes-bytes_of x n e in
        rw p (record {
          sorted = rw (sd.items-assign) (insert_sorted-IsSorted key x _ v.sorted);
          filed = rw (sd.items-assign) (IsFiled-insert_sorted key x _ (refl, rw b e) v.filed);
          counted = rw (sd.items-assign) (
              omega (
                arith,
                v.counted,
                b,
                total_bytes-insert_sorted key x (sd.items m.entries) v.sorted,
                replaced-le-total_bytes key (sd.items m.entries),
              ));
        })

    -- After a put on a valid memtable that does not raise, get of the key returns the new entry and
    -- get of any other key returns what it returned before.
    pub get-put :
        {m m' : Memtable sd}
        → IsValid m
        → put sd key value timestamp deleted m ≡ ok m'
        → (j : Key)
        → get sd j m'
          ≡ (if key_eq key j then some (entry key value timestamp deleted) else get sd j m)
    unfolding get
    get-put {m} v h j =
        let (n, e, p) = put_inv v h in
        rw p
          (simp (sd.get-items, sd.items-assign) (lookup-insert_sorted key j _ (sd.items m.entries)))

    -- On a valid table `put` raises exactly where the key cannot be encoded.
    pub put-ok :
        {m : Memtable sd} {b : Bytes}
        → IsValid m
        → encode_key key ≡ ok b
        → put sd key value timestamp deleted m
          ≡ ok (applied (entry key value timestamp deleted) (length b + length value) m)
    unfolding put entry_bytes
    put-ok {m} v e = rw (old_bytes-get key m v) (rw e refl)
