-- ===== src/Batch.antt =====
-- yellowdb/api/batch.py
pub mod Commit
use yellowdb.Prelude.{Bool, List, [], ◌∷◌, ◌++◌, if◌then◌else◌}
use yellowdb.Errors.{ok}
use yellowdb.Text.{Key, Bytes}
use yellowdb.Actions.{Action, pure, ◌>>=◌, ◌>>◌}
use yellowdb.Platform.{Platform}
use yellowdb.Database.State.{Database, Clock}
use yellowdb.Database.Write as Write

-- the tuple (operation_type, key, value)
pub data Operation : Type 0 where
  put_operation : Key → Bytes → Operation
  delete_operation : Key → Operation

unfoldable pub put : Key → Bytes → List Operation → List Operation
put key value operations = operations ++ put_operation key value ∷ []

unfoldable pub delete : Key → List Operation → List Operation
delete key operations = operations ++ delete_operation key ∷ []

module _ (p : Platform) where
  unfoldable pub apply : Operation → Clock → Action (Database p) (Unit {0})
  unfolding Write.set Write.delete
  apply (put_operation key value) clock = Write.set p key value clock
  apply (delete_operation key) clock = Write.delete p key clock

  -- `commit`, each operation at its readings of the clock
  unfoldable pub commit : List (Operation × Clock) → Action (Database p) (Unit {0})
  unfolding apply
  commit [] = pure tt
  commit ((operation, clock) ∷ operations) = apply operation clock >> commit operations

  -- `__exit__`, where `failed` says that the block raised
  unfoldable pub exit : Bool → List (Operation × Clock) → Action (Database p) (Unit {0})
  unfolding commit
  exit failed operations = if failed then pure tt else commit operations
