-- ===== src/Memtable/Fresh.antt =====
-- New memtables.
use yellowdb.Prelude.{ℕ, zero, suc, ◌<◌, ◌≡◌, refl, ap, ◌∙◌, none, replicate, length, arith, All}
use yellowdb.Prelude.Int.{ℤ}
use yellowdb.Errors.{ok}
use yellowdb.Text.{Key}
use yellowdb.Dict.{lookup}
use yellowdb.Items.{item}
use yellowdb.Memtable.SortedDict.{SortedDict}
use yellowdb.Memtable.Table
use yellowdb.Memtable.Table.{MemtableEntry, Memtable}
use yellowdb.Memtable.Laws
use yellowdb.Memtable.Concurrent.{new, get}
use yellowdb.Memtable.Shards.{home, Shards, IsValid}
use yellowdb.Memtable.Views.{get-home}

module _ (sd : SortedDict MemtableEntry) where
  pub get-new : (j : Key) → Table.get sd j (Table.new sd) ≡ none
  unfolding Table.get Table.new lookup
  get-new j = rw (sd.get-items, sd.items-empty) refl

  length-replicate : (n : ℕ) (m : Memtable sd) → length (replicate n m) ≡ n
  length-replicate zero m = refl
  length-replicate (suc n) m = omega (arith, length-replicate n m)

  item-replicate :
      (n i : ℕ) (x : Memtable sd) {m : Memtable sd} → item i (replicate n x) ≡ ok m → x ≡ m
  unfolding item
  item-replicate zero i x h = absurd (cc)
  item-replicate (suc n) zero x h = cc
  item-replicate (suc n) (suc i) x h = item-replicate n i x h

  module _ (hash : Key → ℤ) where
    Shards-new : (count i n : ℕ) → Shards sd hash count i (replicate n (Table.new sd))
    unfolding Table.new
    Shards-new count i zero = tt
    Shards-new count i (suc n) = (Laws.new-IsValid sd, filed, Shards-new count (suc i) n)
      where
        filed : All (λ e. home sd hash count e.0 ≡ i) (sd.items sd.empty)
        filed = rw (sd.items-empty) tt

    pub new-IsValid : (count : ℕ) → 0 < count → IsValid sd hash (new sd hash count)
    unfolding new Table.new
    new-IsValid count h = record {
      positive = h;
      sized = length-replicate count (Table.new sd);
      shards = Shards-new count 0 count;
    }

    pub get-new_sharded :
        (count : ℕ) (j : Key) → 0 < count → get sd hash j (new sd hash count) ≡ ok none
    unfolding new
    get-new_sharded count j h =
        let (m, at, e) = get-home sd hash j (new sd hash count) (new-IsValid count h) in
        let x : Table.new sd ≡ m = item-replicate count (home sd hash count j) (Table.new sd) at in
        e ∙ (rw (← x) (ap ok (get-new j)))
