-- ===== src/Database/Stored.antt =====
-- `get` returns nothing that is not stored.
use yellowdb.Prelude.{
  ℕ, ◌≤◌, ◌<◌, ◌≡◌, ◌∙◌, refl, sym, Bool, true, false, Option, none, some, ◌⊎◌, inl, inr, length,
  arith,
}
use yellowdb.Errors.{Result, ok, raise}
use yellowdb.Text.{Key, Bytes}
use yellowdb.Cache.Defs.{Version}
use yellowdb.Memtable.Table.{MemtableEntry}
use yellowdb.SsTable.Defs.{SsTable, scan_all}
use yellowdb.SsTable.Lookup.{IsAmong}
use yellowdb.Wal.Recover.{Entry}
use yellowdb.Compactor.Defs.{search_key}
use yellowdb.Compactor.Stored.{IsWrittenOut, search_key-IsAmong}
use yellowdb.Platform.{Platform}
use yellowdb.Database.Source
use yellowdb.Database.State.{Database}
use yellowdb.Database.Read.{visible, get}
use yellowdb.Database.View.{IsCoherent, found_in, stored_value, get-eq-stored_value}

-- an entry that is no deletion
abbrev pub live : Key → Bytes → ℕ → Entry
live key value timestamp = record {
  key = key;
  value = value;
  timestamp = timestamp;
  deleted = false;
}

visible_inv :
    (value bytes : Bytes) (deleted : Bool)
    → visible value deleted ≡ some bytes
    → (value ≡ bytes) × (deleted ≡ false)
visible_inv value bytes true h = absurd (cc)
visible_inv value bytes false h = (cc, refl)

-- what a value that is found comes from
found_in_inv :
    (r : Result (Option MemtableEntry)) (o : Option Version) (bytes : Bytes)
    → found_in r o ≡ ok (some bytes)
    → ((e : MemtableEntry) × (r ≡ ok (some e)) × (e.value ≡ bytes) × (e.deleted ≡ false))
      ⊎ ((v : Version) × (r ≡ ok none) × (o ≡ some v) × (v.value ≡ bytes) × (v.deleted ≡ false))
unfolding found_in
found_in_inv (raise e) o bytes h = absurd (cc)
found_in_inv (ok none) none bytes h = absurd (cc)
found_in_inv (ok none) (some v) bytes h =
    let (a, b) = visible_inv v.value bytes v.deleted (ground arith) in inr (v, refl, refl, a, b)
found_in_inv (ok (some e)) o bytes h =
    let (a, b) = visible_inv e.value bytes e.deleted (ground arith) in inl (e, refl, a, b)

module _ (p : Platform) where
  -- On an open, coherent database whose tables are such as write_record writes them, a value that
  -- get returns for a key of 1 to 1024 code points is that of the memtable's entry for the key,
  -- which is no deletion, or if the memtable has no entry that of an entry for the key in the file
  -- of a table of some level, which is no deletion.
  pub get-stored :
      (key : Key) (bytes : Bytes) (db : Database p)
      → IsCoherent p db
      → ((m : ℕ) → IsWrittenOut p (db.compactor.levels m))
      → db.closed ≡ false
      → 0 < length key
      → length key ≤ 1024
      → (get p key db).0 ≡ ok (some bytes)
      → ((e : MemtableEntry) × (Source.get p key db.memtable ≡ ok (some e))
          × (e.value ≡ bytes)
          × (e.deleted ≡ false))
        ⊎ ((m : ℕ) × (t : SsTable) × (timestamp : ℕ) × IsAmong t (db.compactor.levels m)
            × IsAmong (live key bytes timestamp) (scan_all p.z t)
            × (Source.get p key db.memtable ≡ ok none))
  unfolding stored_value
  get-stored key bytes db c w open' pos max h =
      let (same, _, _, _) = get-eq-stored_value p key db c open' pos max in
      elim (found_in_inv (Source.get p key db.memtable) (search_key p key db.compactor) bytes
        (sym same ∙ h)) [
          | inl x ↦ inl x
          | inr (v, n, f, e, d) ↦
              let (m, t, a, b) = search_key-IsAmong p key v db.compactor w f in
              let b' = rw (e, d) at b in inr (m, t, v.timestamp, a, b', n)
        ]
