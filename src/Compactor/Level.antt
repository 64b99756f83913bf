-- ===== src/Compactor/Level.antt =====
-- `Level`: its list of tables. Two tables are the same object exactly if they have the same number:
-- the numbers of a level's files are never used again.
use yellowdb.Prelude.{
  ℕ, ◌+◌, Bool, true, false, ◌&&◌, none, some, List, [], ◌∷◌, ◌++◌, ◌==◌, if◌then◌else◌,
}
use yellowdb.Text.{Key}
use yellowdb.Text.Order.{key_lt}
use yellowdb.SsTable.Defs.{SsTable}
use yellowdb.SsTable.Files.{get_file_size}

-- x.get_minimum_key() or ""
unfoldable pub sort_key : SsTable → Key
sort_key t = elim t.minimum_key [ none ↦ [] | some k ↦ k ]

-- in front of the first table whose key is not smaller
unfoldable pub place : SsTable → List SsTable → List SsTable
unfolding sort_key
place t [] = t ∷ []
place t (u ∷ us) =
    let rest = place t us in if key_lt (sort_key u) (sort_key t) then u ∷ rest else t ∷ u ∷ us

-- self.sstables.sort(key=…), which is stable
unfoldable pub sort : List SsTable → List SsTable
unfolding place
sort [] = []
sort (t ∷ ts) = place t (sort ts)

unfoldable pub add_sstable : SsTable → List SsTable → List SsTable
unfolding sort
add_sstable t ts = sort (ts ++ t ∷ [])

unfoldable pub same_table : SsTable → SsTable → Bool
same_table t u = t.level == u.level && t.sequence == u.sequence

unfoldable pub remove_sstable : SsTable → List SsTable → List SsTable
unfolding same_table
remove_sstable t [] = []
remove_sstable t (u ∷ us) =
    let rest = remove_sstable t us in if same_table t u then us else u ∷ rest

-- An empty key counts as no key.
unfoldable pub overlaps : Key → Key → SsTable → Bool
overlaps start_key end_key t = elim t.maximum_key [
  | some (c ∷ k) ↦ if key_lt (c ∷ k) start_key then false else (elim t.minimum_key [
    | some (d ∷ j) ↦ if key_lt end_key (d ∷ j) then false else true
    | _ ↦ true
  ])
  | _ ↦ elim t.minimum_key [
    | some (d ∷ j) ↦ if key_lt end_key (d ∷ j) then false else true
    | _ ↦ true
  ]
]

unfoldable pub get_sstables_for_range : Key → Key → List SsTable → List SsTable
unfolding overlaps
get_sstables_for_range start_key end_key [] = []
get_sstables_for_range start_key end_key (t ∷ ts) =
    let rest = get_sstables_for_range start_key end_key ts in
    if overlaps start_key end_key t then t ∷ rest else rest

unfoldable pub get_size : List SsTable → ℕ
unfolding get_file_size
get_size [] = 0
get_size (t ∷ ts) = get_file_size t + get_size ts
