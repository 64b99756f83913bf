-- ===== src/Compactor/Stored.antt =====
-- What `search_key` finds in tables that `write_record` wrote.
use yellowdb.Prelude.{
  ℕ, zero, suc, ◌≡◌, refl, ◌∙◌, some, List, [], ◌∷◌, All, inl, inr, Option-cases,
}
use yellowdb.Text.{Key}
use yellowdb.Cache.Defs.{Version}
use yellowdb.SsTable.Defs
use yellowdb.SsTable.Defs.{SsTable, scan_all}
use yellowdb.SsTable.Lookup.{IsWritten, IsAmong, IsAmong-cons, entry_of, get-IsAmong}
use yellowdb.Compactor.Defs.{Compactor, search_tables, search_levels, search_key}
use yellowdb.Platform.{Platform}

module _ (p : Platform) where
  abbrev pub IsWrittenOut : List SsTable → Type 0
  IsWrittenOut = All (IsWritten p.z p.config p.md5)

  search_tables-IsAmong :
      (key : Key) (v : Version) (ts : List SsTable)
      → IsWrittenOut ts
      → search_tables p key ts ≡ some v
      → (t : SsTable) × IsAmong t ts × IsAmong (entry_of key v) (scan_all p.z t)
  unfolding search_tables
  search_tables-IsAmong key v [] w h = absurd (cc)
  search_tables-IsAmong key v (t ∷ ts) (w, ws) h =
      elim (Option-cases (Defs.get p.z p.md5 p.config key t)) [
        | inl n ↦
            let h' = rw (n, search_tables) at h in
            let (u, a, b) = search_tables-IsAmong key v ts ws h' in (u, IsAmong-cons u t ts a, b)
        | inr (x, s) ↦
            let h' = rw (s, search_tables) at h in
            (t, ([], ts, refl), get-IsAmong p.z p.config p.md5 key t v w (s ∙ h'))
      ]

  search_levels-IsAmong :
      (key : Key) (v : Version) (c : Compactor) (n rest : ℕ)
      → ((m : ℕ) → IsWrittenOut (c.levels m))
      → search_levels p key c n rest ≡ some v
      → (m : ℕ) × (t : SsTable) × IsAmong t (c.levels m) × IsAmong (entry_of key v) (scan_all p.z t)
  unfolding search_levels
  search_levels-IsAmong key v c n zero w h = absurd (cc)
  search_levels-IsAmong key v c n (suc rest) w h =
      elim (Option-cases (search_tables p key (c.levels n))) [
        | inl e ↦
            let h' = rw (e, search_levels) at h in search_levels-IsAmong key v c (suc n) rest w h'
        | inr (x, s) ↦
            let h' = rw (s, search_levels) at h in
            let (t, a, b) = search_tables-IsAmong key v (c.levels n) (w n) (s ∙ h') in (n, t, a, b)
      ]

  -- What search_key returns stands in a table of some level, as an entry of the key.
  pub search_key-IsAmong :
      (key : Key) (v : Version) (c : Compactor)
      → ((m : ℕ) → IsWrittenOut (c.levels m))
      → search_key p key c ≡ some v
      → (m : ℕ) × (t : SsTable) × IsAmong t (c.levels m) × IsAmong (entry_of key v) (scan_all p.z t)
  unfolding search_key
  search_key-IsAmong key v c w h = search_levels-IsAmong key v c 0 p.config.compaction_threshold w h
