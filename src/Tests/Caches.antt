-- ===== src/Tests/Caches.antt =====
-- The cache at concrete contents.
use yellowdb.Prelude.{ℕ, ◌≡◌, ◌≤◌, refl, false, none, some, [], ◌∷◌, ◌++◌, drop}
use yellowdb.Text.{Key}
use yellowdb.Dict.{lookup, remove}
use yellowdb.Cache.Defs.{Version, WriteThroughCache, put, get}
use yellowdb.Cache.Laws.{total_size, IsValid, IsNeeded}
use yellowdb.Cache.Reads
use yellowdb.Tests.Data.{alice, bob}

abbrev v1 : Version
v1 = record { value = 1 ∷ 2 ∷ []; timestamp = 1; deleted = false }

abbrev full : WriteThroughCache
full = record { maximum_size = 3; entries = (alice, v1) ∷ []; size = 2 }

full-IsValid : IsValid full
unfolding total_size lookup
full-IsValid = record { distinct = (refl, tt); counted = refl }

put_lem_example :
    (n : ℕ) × ((put bob (3 ∷ 4 ∷ []) 2 false full).entries
      ≡ drop n (
          remove bob full.entries
          ++ (bob, record { value = 3 ∷ 4 ∷ []; timestamp = 2; deleted = false }) ∷ []))
    × IsNeeded 3
        (remove bob full.entries
          ++ (bob, record { value = 3 ∷ 4 ∷ []; timestamp = 2; deleted = false }) ∷ [])
        n
    × ((put bob (3 ∷ 4 ∷ []) 2 false full).size
        ≡ total_size (put bob (3 ∷ 4 ∷ []) 2 false full).entries)
    × ((put bob (3 ∷ 4 ∷ []) 2 false full).size ≤ 3)
    × ((put bob (3 ∷ 4 ∷ []) 2 false full).maximum_size ≡ 3)
put_lem_example = Reads.put_lem bob (3 ∷ 4 ∷ []) 2 false full full-IsValid

get_lem_example :
    ((get alice full).0 ≡ lookup alice full.entries)
    × ((j : Key) → lookup j (get alice full).1.entries ≡ lookup j full.entries)
    × ((v : Version)
        → lookup alice full.entries ≡ some v
        → (get alice full).1.entries ≡ remove alice full.entries ++ (alice, v) ∷ [])
    × (lookup alice full.entries ≡ none → (get alice full).1 ≡ full)
    × IsValid (get alice full).1
get_lem_example = Reads.get_lem alice full full-IsValid
