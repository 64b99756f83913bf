-- ===== src/Serializer/KeyCache.antt =====
-- The class attributes `_key_cache` and `_cache_size`, and the methods that use them.
use yellowdb.Prelude.{
  ℕ, ◌+◌, ◌*◌, ◌≤◌, ◌<◌, ◌≡◌, refl, inl, inr, Option, none, some, [], arith, ltb, length,
  Option-cases, Bool-cases, if◌then◌else◌,
}
use yellowdb.Errors.{Result, ok, raise, unicode_encode_error}
use yellowdb.Text.{Key, Bytes}
use yellowdb.Text.Utf8.{encode}
use yellowdb.Text.Order.{key_eq_iff}
use yellowdb.Dict.{Dict, lookup, insert, lookup-insert}

pub record KeyCache : Type 0 where
  pub entries : Dict Bytes
  pub cache_size : ℕ

abbrev pub empty : KeyCache
empty = record { entries = []; cache_size = 0 }

abbrev pub max_cache_size : ℕ
max_cache_size = 1024 * 1024

-- the last three statements of `get_cached_key_bytes`
store : Key → Bytes → KeyCache → KeyCache
store key key_bytes c =
    if ltb c.cache_size max_cache_size
    then record {
      entries = insert key key_bytes c.entries;
      cache_size = c.cache_size + length key_bytes;
    }
    else c

miss : Key → Option Bytes → KeyCache → Result Bytes × KeyCache
unfolding store
miss key none c = (raise unicode_encode_error, c)
miss key (some key_bytes) c = (ok key_bytes, store key key_bytes c)

fetch : Key → Option Bytes → KeyCache → Result Bytes × KeyCache
unfolding miss
fetch key (some key_bytes) c = (ok key_bytes, c)
fetch key none c = miss key (encode key) c

unfoldable pub get_cached_key_bytes : Key → KeyCache → Result Bytes × KeyCache
unfolding fetch
get_cached_key_bytes key c = fetch key (lookup key c.entries) c

unfoldable pub clear_key_cache : KeyCache → KeyCache
clear_key_cache c = empty

-- `key.encode("utf-8")`
unfoldable pub encode_key : Key → Result Bytes
encode_key key = elim (encode key) [ none ↦ raise unicode_encode_error | some b ↦ ok b ]

-- Every cached entry is the encoding of its key.
pub record IsCoherent (c : KeyCache) : Type 0 where
  pub at_key : (k : Key) (b : Bytes) → lookup k c.entries ≡ some b → encode k ≡ some b

store-IsCoherent :
    (key : Key) (b : Bytes) {c : KeyCache}
    → IsCoherent c
    → encode key ≡ some b
    → IsCoherent (store key b c)
unfolding store
store-IsCoherent key b {c} h e = elim (Bool-cases (ltb c.cache_size max_cache_size)) [
  | inl p ↦
      rw (p, store)
        (record {
          at_key = λ k x.
              rw (lookup-insert key k b c.entries) (ground (arith, h.at_key k x, key_eq_iff key k));
        })
  | inr p ↦ rw (p, store) h
]

-- With a coherent key cache get_cached_key_bytes returns the UTF-8 encoding of the key, or raises
-- where it fails, and the cache stays coherent.
pub get_cached_key_bytes-eq-encode :
    (key : Key) (c : KeyCache)
    → IsCoherent c
    → ((get_cached_key_bytes key c).0 ≡ encode_key key) × IsCoherent (get_cached_key_bytes key c).1
unfolding get_cached_key_bytes encode_key
get_cached_key_bytes-eq-encode key c h = elim (Option-cases (lookup key c.entries)) [
  | inr (b, e) ↦ rw (e, fetch) (rw (h.at_key key b e, encode_key) (refl, h))
  | inl e ↦
      rw (e, fetch)
        (elim (Option-cases (encode key)) [
          | inl e' ↦ rw (e', miss, encode_key) (refl, h)
          | inr (b, e') ↦ rw (e', miss, encode_key) (refl, store-IsCoherent key b h e')
        ])
]

pub IsCoherent-empty : IsCoherent empty
unfolding lookup
IsCoherent-empty = record { at_key = λ k b e. absurd (ground arith) }

-- A call adds nothing to a cache of the maximum size or more, and never drops an entry: the size
-- stays below the maximum and the length of the one key that was let in last.
pub cache_size_bound :
    (key : Key) (c : KeyCache) (n : ℕ)
    → ((b : Bytes) → encode key ≡ some b → length b ≤ n)
    → c.cache_size < max_cache_size + n
    → (get_cached_key_bytes key c).1.cache_size < max_cache_size + n
unfolding get_cached_key_bytes
cache_size_bound key c n h k = elim (Option-cases (lookup key c.entries)) [
  | inr (b, e) ↦ rw (e, fetch) k
  | inl e ↦
      rw (e, fetch)
        (elim (Option-cases (encode key)) [
          | inl e' ↦ rw (e', miss) k
          | inr (b, e') ↦ rw (e', miss) (let l = h b e' in unfold store in ground arith)
        ])
]
