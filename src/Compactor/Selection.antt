-- ===== src/Compactor/Selection.antt =====
-- `needs_compaction` against `select_compaction_range`.
use yellowdb.Prelude.{ℕ, zero, suc, ◌+◌, ◌≤◌, ◌<◌, ◌≡◌, Bool, true, false, length, ltb}
use yellowdb.Config.{Config}
use yellowdb.Compactor.Defs.{Compactor, is_oversized}

module _ (config : Config) (c : Compactor) where
  -- Level 0 exceeds its threshold with more than two tables, any other level by its size.
  unfoldable pub exceeds : ℕ → Bool
  exceeds zero = ltb 2 (length (c.levels 0))
  exceeds (suc i) = is_oversized config c (suc i)

  -- No level from `i` on exceeds its threshold, for so many levels.
  abbrev pub NoneExceeds : ℕ → ℕ → Type 0
  NoneExceeds i n = (m : ℕ) → i ≤ m → m < i + n → exceeds m ≡ false

  abbrev pub IsFirst : ℕ → ℕ → ℕ → Type 0
  IsFirst i n k =
      (i ≤ k) × (k < i + n) × (exceeds k ≡ true) × ((m : ℕ) → i ≤ m → m < k → exceeds m ≡ false)
