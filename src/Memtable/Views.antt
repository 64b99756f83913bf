-- ===== src/Memtable/Views.antt =====
-- What can be read from the shards after a `put`, and the union of the shards.
use native.Mathlib.Decide.{ℕ_discrete}
use yellowdb.Prelude.{ℕ, ◌≡◌, refl, Bool, false, some, arith, if◌then◌else◌}
use yellowdb.Prelude.Int.{ℤ}
use yellowdb.Errors.{ok}
use yellowdb.Text.{Key, Bytes}
use yellowdb.Text.Order.{key_eq, key_eq_iff}
use yellowdb.Serializer.KeyCache.{encode_key}
use yellowdb.Memtable.SortedDict.{SortedDict}
use yellowdb.Memtable.Table
use yellowdb.Memtable.Table.{MemtableEntry, Memtable, entry}
use yellowdb.Memtable.Laws
use yellowdb.Memtable.Concurrent.{ConcurrentMemtables, put, get}
use yellowdb.Items.{item, item-modify, item-modify_ne, modify-ok, item-ok}
use yellowdb.Memtable.Shards.{
  mod_ℤ-lt, home, IsValid, item-Shards, index-home, put_inv, put-IsValid,
}

module _ (sd : SortedDict MemtableEntry) (hash : Key → ℤ) where
  -- `get` on valid shards never raises, and reads the shard of the key.
  pub get-home :
      (key : Key) (c : ConcurrentMemtables sd hash)
      → IsValid sd hash c
      → (m : Memtable sd) × (item (home sd hash c.count key) c.memtables ≡ ok m)
        × (get sd hash key c ≡ ok (Table.get sd key m))
  unfolding get
  get-home key c v =
      let (m, e) =
        item-ok (home sd hash c.count key) c.memtables
          (omega (arith, mod_ℤ-lt (hash key) c.count v.positive, v.sized)) in
      (m, e, rw (index-home sd hash key c v) (rw e refl))

  module _ (key : Key) (value : Bytes) (timestamp : ℕ) (deleted : Bool) where
    -- On valid shards a `put` of a key that can be encoded never raises.
    pub put-ok :
        (c : ConcurrentMemtables sd hash) {b : Bytes}
        → IsValid sd hash c
        → encode_key key ≡ ok b
        → (c' : ConcurrentMemtables sd hash) × (put sd hash key value timestamp deleted c ≡ ok c')
    unfolding put
    put-ok c v e =
        let (m, at, _) = get-home key c v in
        let valid =
          item-Shards sd hash c.count 0 (home sd hash c.count key) c.memtables v.shards at in
        let (ms, p) =
          modify-ok (home sd hash c.count key) (Table.put sd key value timestamp deleted)
            c.memtables m _ at (Laws.put-ok sd key value timestamp deleted valid e) in
        (record c { memtables = ms }, rw (index-home sd hash key c v) (rw p refl))

    -- On valid shards, after a put of ConcurrentMemtables that does not raise, get of the key
    -- returns the new entry and get of any other key, in the same shard or another, returns what it
    -- returned before.
    pub get-put_sharded :
        {c c' : ConcurrentMemtables sd hash}
        → IsValid sd hash c
        → put sd hash key value timestamp deleted c ≡ ok c'
        → (j : Key)
        → get sd hash j c' ≡ (
            if key_eq key j then ok (some (entry key value timestamp deleted)) else get sd hash j c)
    get-put_sharded {c} {c'} v h j =
        let v' = put-IsValid sd hash key value timestamp deleted v h in
        let (m, at, g) = get-home j c v in
        let (m', at', g') = get-home j c' v' in
        let (e, n) = put_inv sd hash key value timestamp deleted v h in
        let here = home sd hash c.count key in
        let there = home sd hash c.count j in
        elim (ℕ_discrete here there) [
          | yes p ↦
              let (x, y, ix, fx, iy) = item-modify here _ c.memtables c'.memtables e in
              let q : x ≡ m = cc in
              let q' : y ≡ m' = cc in
              let valid = item-Shards sd hash c.count 0 there c.memtables v.shards at in
              let step =
                Laws.get-put sd key value timestamp deleted valid (rw q at (rw q' at fx)) j in
              rw (g, g', step) (ground arith)
          | no p ↦
              let same = item-modify_ne here there _ c.memtables c'.memtables e p in
              let q : m' ≡ m = cc in
              let other : key_eq key j ≡ false = ground (arith, key_eq_iff key j) in
              rw (g, g', other, q) refl
        ]
