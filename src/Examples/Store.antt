-- ===== src/Examples/Store.antt =====
-- What the examples rely on of a database: its methods, the laws of these, and when they hold.
use yellowdb.Prelude.{
  ℕ, ◌≤◌, ◌<◌, ◌≡◌, Bool, true, false, Option, none, some, List, [], ◌∷◌, All, length,
  if◌then◌else◌,
}
use yellowdb.Errors.{Result, ok}
use yellowdb.Text.{Key, Bytes}
use yellowdb.Text.Order.{key_eq, key_le}
use yellowdb.Actions.{Action, ◌>>◌}
use yellowdb.Memtable.Sorted.{IsSorted}
use yellowdb.Batch.{Operation, put_operation, delete_operation}
use yellowdb.Database.State.{Clock}

pub record Store : Type 1 where
  pub S : Type 0
  pub set : Key → Bytes → Clock → Action S (Unit {0})
  pub get : Key → Action S (Option Bytes)
  pub delete : Key → Clock → Action S (Unit {0})
  -- the entries that the iterator of `scan` gives
  pub scan : Option Key → S → Result (List (Key × Bytes))
  -- `with Batch(db) as batch: …`, for the operations that the block queues
  pub batch : List (Operation × Clock) → Action S (Unit {0})
  pub close : Action S (Unit {0})
  -- `stats()["memtable"]["size"]` and `stats()["cache"]["entries"]`
  pub memtable_size : S → ℕ
  pub cache_entries : S → ℕ
  -- open, and in order
  pub IsReady : S → Type 0
  -- a write does not set off a flush or a compaction
  pub HasRoom : Key → Bytes → Bool → Clock → S → Type 0
  -- what is stored for a key
  pub value_at : Key → S → Result (Option Bytes)
  pub set_lem :
      (key : Key) (value : Bytes) (clock : Clock) (s s' : S)
      → IsReady s
      → HasRoom key value false clock s
      → set key value clock s ≡ (ok tt, s')
      → IsReady s'
        × ((j : Key) → value_at j s' ≡ (if key_eq key j then ok (some value) else value_at j s))
  pub delete_lem :
      (key : Key) (clock : Clock) (s s' : S)
      → IsReady s
      → HasRoom key [] true clock s
      → delete key clock s ≡ (ok tt, s')
      → IsReady s' × ((j : Key) → value_at j s' ≡ (if key_eq key j then ok none else value_at j s))
  pub get_lem :
      (key : Key) (s : S)
      → IsReady s
      → 0 < length key
      → length key ≤ 1024
      → ((get key s).0 ≡ value_at key s)
        × IsReady (get key s).1
        × ((j : Key) → value_at j (get key s).1 ≡ value_at j s)
  pub scan_lem :
      (start_key : Key) (s : S)
      → IsReady s
      → (es : List (Key × Bytes)) × (scan (some start_key) s ≡ ok es)
        × IsSorted es
        × All (λ (e : Key × Bytes). key_le start_key e.0 ≡ true) es
  pub batch-nil : (s : S) → batch [] s ≡ (ok tt, s)
  pub batch-put :
      (key : Key) (value : Bytes) (clock : Clock) (os : List (Operation × Clock)) (s : S)
      → batch ((put_operation key value, clock) ∷ os) s ≡ (set key value clock >> batch os) s
  pub batch-delete :
      (key : Key) (clock : Clock) (os : List (Operation × Clock)) (s : S)
      → batch ((delete_operation key, clock) ∷ os) s ≡ (delete key clock >> batch os) s
