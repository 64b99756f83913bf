-- ===== src/Cache/Defs.antt =====
-- The state and the methods. The lock is not modelled: a method is one step.
use yellowdb.Prelude.{
  ℕ, zero, suc, ◌+◌, ◌-◌, Bool, Option, none, some, [], ◌∷◌, ◌++◌, length, ltb, if◌then◌else◌,
}
use yellowdb.Config.{Config}
use yellowdb.Text.{Key, Bytes}
use yellowdb.Dict.{Dict, lookup, insert, remove}

-- the tuple (value, timestamp, deleted)
pub record Version : Type 0 where
  pub value : Bytes
  pub timestamp : ℕ
  pub deleted : Bool

pub record WriteThroughCache : Type 0 where
  pub maximum_size : ℕ
  pub entries : Dict Version
  pub size : ℕ

-- `max_size or self.config.cache_size`: `None` and 0 both give the configured size
unfoldable pub new : Config → Option ℕ → WriteThroughCache
new config none = record { maximum_size = config.cache_size; entries = []; size = 0 }
new config (some zero) = record { maximum_size = config.cache_size; entries = []; size = 0 }
new config (some (suc n)) = record { maximum_size = suc n; entries = []; size = 0 }

-- `OrderedDict.move_to_end(key)`
unfoldable pub move_to_end : Key → Dict Version → Dict Version
move_to_end key d = elim (lookup key d) [ none ↦ d | some v ↦ remove key d ++ (key, v) ∷ [] ]

-- `if key in self._cache: …; del self._cache[key]`
unfoldable pub drop_key : Key → WriteThroughCache → WriteThroughCache
drop_key key c = elim (lookup key c.entries) [
  | none ↦ c
  | some v ↦ record c { entries = remove key c.entries; size = c.size - length v.value }
]

-- the `while` loop of `put`, with the size and the entries that are left
unfoldable pub evict : ℕ → ℕ → Dict Version → ℕ × Dict Version
evict maximum_size size [] = (size, [])
evict maximum_size size ((k, v) ∷ d) =
    let rest = evict maximum_size (size - length v.value) d in
    if ltb maximum_size size then rest else (size, (k, v) ∷ d)

unfoldable pub put : Key → Bytes → ℕ → Bool → WriteThroughCache → WriteThroughCache
unfolding drop_key move_to_end
put key value timestamp deleted c =
    let c1 = drop_key key c in
    let version : Version = record { value = value; timestamp = timestamp; deleted = deleted } in
    let entries = move_to_end key (insert key version c1.entries) in
    let (size', entries') = evict c1.maximum_size (c1.size + length value) entries in
    record c1 { entries = entries'; size = size' }

unfoldable pub get : Key → WriteThroughCache → Option Version × WriteThroughCache
get key c = elim (lookup key c.entries) [
  | none ↦ (none, c)
  | some v ↦ (some v, record c { entries = move_to_end key c.entries })
]

unfoldable pub invalidate : Key → WriteThroughCache → WriteThroughCache
unfolding drop_key
invalidate key c = drop_key key c

unfoldable pub clear : WriteThroughCache → WriteThroughCache
clear c = record c { entries = []; size = 0 }

unfoldable pub get_count : WriteThroughCache → ℕ
get_count c = length c.entries

unfoldable pub get_size : WriteThroughCache → ℕ
get_size c = c.size
