-- ===== src/Database/SourceLaws.antt =====
-- `self.memtable` as a map, whether it is one memtable or several.
use yellowdb.Prelude.{ℕ, ◌≡◌, refl, Bool, true, Option, some, [], subst, ap, arith, if◌then◌else◌}
use yellowdb.Errors.{ok, ◌>>=◌, >>=-eq-ok}
use yellowdb.Text.{Key, Bytes}
use yellowdb.Text.Order.{key_eq}
use yellowdb.Serializer.KeyCache.{encode_key}
use yellowdb.Memtable.Table
use yellowdb.Memtable.Table.{MemtableEntry, Memtable, entry}
use yellowdb.Memtable.Laws
use yellowdb.Memtable.Concurrent
use yellowdb.Memtable.Shards
use yellowdb.Memtable.Views
use yellowdb.Platform.{Platform}
use yellowdb.Database.Source.{Source, concurrent, single, put, get, delete}

module _ (p : Platform) where
  abbrev pub IsValid : Source p → Type 0
  IsValid (concurrent c) = Shards.IsValid p.sd p.hash c
  IsValid (single m) = Laws.IsValid p.sd m

  -- `get` never raises on a valid memtable.
  pub get-ok :
      (key : Key) (m : Source p) → IsValid m → (o : Option MemtableEntry) × (get p key m ≡ ok o)
  unfolding get
  get-ok key (concurrent c) v =
      let (m, at, e) = Views.get-home p.sd p.hash key c v in (Table.get p.sd key m, e)
  get-ok key (single m) v = (Table.get p.sd key m, refl)

  module _ (key : Key) (value : Bytes) (timestamp : ℕ) (deleted : Bool) where
    pub put-IsValid :
        (m : Source p) {m' : Source p}
        → IsValid m
        → put p key value timestamp deleted m ≡ ok m'
        → IsValid m'
    unfolding put
    put-IsValid (concurrent c) {m'} v h =
        let (c', e, q) = >>=-eq-ok (Concurrent.put p.sd p.hash key value timestamp deleted c) _ h in
        let r : concurrent c' ≡ m' = ground arith in
        subst IsValid r (Shards.put-IsValid p.sd p.hash key value timestamp deleted v e)
    put-IsValid (single m) {m'} v h =
        let (x, e, q) = >>=-eq-ok (Table.put p.sd key value timestamp deleted m) _ h in
        let r : single x ≡ m' = ground arith in
        subst IsValid r (Laws.put-IsValid p.sd key value timestamp deleted v e)

    pub get-put_source :
        (m : Source p) {m' : Source p}
        → IsValid m
        → put p key value timestamp deleted m ≡ ok m'
        → (j : Key)
        → get p j m'
          ≡ (if key_eq key j then ok (some (entry key value timestamp deleted)) else get p j m)
    unfolding put get
    get-put_source (concurrent c) {m'} v h j =
        let (c', e, q) = >>=-eq-ok (Concurrent.put p.sd p.hash key value timestamp deleted c) _ h in
        let r : concurrent c' ≡ m' = ground arith in
        rw (← r) (Views.get-put_sharded p.sd p.hash key value timestamp deleted v e j)
    get-put_source (single m) {m'} v h j =
        let (x, e, q) = >>=-eq-ok (Table.put p.sd key value timestamp deleted m) _ h in
        let r : single x ≡ m' = ground arith in
        rw (← r) (rw (Laws.get-put p.sd key value timestamp deleted v e j) (ground arith))

    -- A `put` of a key that can be encoded never raises.
    pub put-ok :
        (m : Source p) {b : Bytes}
        → IsValid m
        → encode_key key ≡ ok b
        → (m' : Source p) × (put p key value timestamp deleted m ≡ ok m')
    unfolding put
    put-ok (concurrent c) v e =
        let (c', q) = Views.put-ok p.sd p.hash key value timestamp deleted c v e in
        (concurrent c', rw q refl)
    put-ok (single m) v e =
        (_, ap (λ r. r >>= λ x. ok (single x)) (Laws.put-ok p.sd key value timestamp deleted v e))

  -- A deletion is a `put` of the empty value.
  pub delete-eq-put :
      (key : Key) (timestamp : ℕ) (m : Source p)
      → delete p key timestamp m ≡ put p key [] timestamp true m
  unfolding delete put Concurrent.delete Concurrent.put Table.delete
  delete-eq-put key timestamp (concurrent c) = refl
  delete-eq-put key timestamp (single m) = refl
