-- ===== src/Examples/Environment.antt =====
-- The packages that the examples use: `json` on values whose dictionaries have string keys, with the
-- UTF-8 codec around it, and `datetime`. Times are in microseconds.
use yellowdb.Prelude.{ℕ, ◌<◌, ◌≡◌, Bool, length}
use yellowdb.Errors.{Result, ok}
use yellowdb.Text.{Key, Bytes}
use yellowdb.Text.Order.{key_eq}
use yellowdb.Dict.{Dict}

pub record Environment : Type 1 where
  -- a JSON value
  pub Json : Type 0
  pub string : Key → Json
  pub integer : ℕ → Json
  pub object : Dict Json → Json
  -- a use as a dictionary, as a string, as a number: other values raise
  pub as_object : Json → Result (Dict Json)
  pub as_string : Json → Result Key
  pub as_integer : Json → Result ℕ
  -- `value == key`
  pub same : Json → Key → Bool
  -- `f"{value}"`
  pub format : Json → Key
  -- `json.dumps(value).encode()` and `json.loads(data.decode())`
  pub dumps : Json → Bytes
  pub loads : Bytes → Result Json
  -- `datetime.isoformat` and `datetime.fromisoformat`
  pub isoformat : ℕ → Key
  pub fromisoformat : Key → Result ℕ
  pub as_object-object : (d : Dict Json) → as_object (object d) ≡ ok d
  pub as_string-string : (k : Key) → as_string (string k) ≡ ok k
  pub as_integer-integer : (n : ℕ) → as_integer (integer n) ≡ ok n
  pub same-string : (k j : Key) → same (string k) j ≡ key_eq k j
  pub format-string : (k : Key) → format (string k) ≡ k
  -- No JSON text is empty.
  pub dumps-nonempty : (v : Json) → 0 < length (dumps v)
  pub loads-dumps : (v : Json) → loads (dumps v) ≡ ok v
  pub fromisoformat-isoformat : (t : ℕ) → fromisoformat (isoformat t) ≡ ok t
