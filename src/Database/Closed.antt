-- ===== src/Database/Closed.antt =====
-- A closed database.
use yellowdb.Prelude.{◌≡◌, refl, true}
use yellowdb.Errors.{raise, database_closed_error}
use yellowdb.Text.{Key, Bytes}
use yellowdb.Actions.{Action, >>=-raise}
use yellowdb.Platform.{Platform}
use yellowdb.Database.State.{Database, Clock, check_open}
use yellowdb.Database.Write.{set, delete}
use yellowdb.Database.Read.{get}
use yellowdb.Database.Close.{flush, compact, close, destroy}

module _ (p : Platform) where
  -- the call raises, and the database is as it was
  abbrev pub Refuses {ℓ} : {A : Type ℓ} → Action (Database p) A → Database p → Type ℓ
  Refuses m db = m db ≡ (raise database_closed_error, db)

  check_open-closed : (db : Database p) → db.closed ≡ true → Refuses (check_open p) db
  unfolding check_open
  check_open-closed db h = rw h refl

  -- On a closed database set, get, delete, flush, compact, close and destroy raise
  -- DatabaseClosedError, whatever their arguments are, and change nothing.
  pub closed_lem :
      (db : Database p) (key : Key) (value : Bytes) (clock : Clock)
      → db.closed ≡ true
      → Refuses (set p key value clock) db
        × Refuses (get p key) db
        × Refuses (delete p key clock) db
        × Refuses (flush p) db
        × Refuses (compact p) db
        × Refuses (close p) db
        × Refuses (destroy p) db
  unfolding set get delete flush compact close destroy
  closed_lem db key value clock h =
      let c = check_open-closed db h in
      (
        >>=-raise (check_open p) _ c,
        >>=-raise (check_open p) _ c,
        >>=-raise (check_open p) _ c,
        >>=-raise (check_open p) _ c,
        >>=-raise (check_open p) _ c,
        >>=-raise (check_open p) _ c,
        >>=-raise (check_open p) _ c,
      )
