-- ===== src/Examples/Json.antt =====
-- JSON dictionaries as the examples read them.
use yellowdb.Prelude.{ℕ, ◌≡◌, refl, Option, none, some, [], ◌∷◌}
use yellowdb.Errors.{Result, ok, raise, key_error, ◌>>=◌}
use yellowdb.Text.{Key, Bytes}
use yellowdb.Dict.{Dict, lookup, insert}
use yellowdb.Examples.Environment.{Environment}

-- d.update(other)
unfoldable pub update {ℓ} : {V : Type ℓ} → Dict V → Dict V → Dict V
update d [] = d
update d ((k, v) ∷ other) = update (insert k v d) other

module _ (e : Environment) where
  unfoldable pub or_key_error : Option e.Json → Result e.Json
  or_key_error none = raise key_error
  or_key_error (some v) = ok v

  -- d[name]
  unfoldable pub field : Key → Dict e.Json → Result e.Json
  unfolding or_key_error
  field name d = or_key_error (lookup name d)

  -- `json.loads(data.decode())`, whose result is used as a dictionary
  unfoldable pub read_object : Bytes → Result (Dict e.Json)
  read_object data' = do v ← e.loads data'; e.as_object v

  -- datetime.fromisoformat(d[name])
  unfoldable pub read_time : Key → Dict e.Json → Result ℕ
  unfolding field
  read_time name d = do v ← field name d; s ← e.as_string v; e.fromisoformat s

  -- d[name].update(other)
  unfoldable pub merge_field : Key → Dict e.Json → Dict e.Json → Result (Dict e.Json)
  unfolding field update
  merge_field name other d = do
    v ← field name d
    inner ← e.as_object v
    ok (insert name (e.object (update inner other)) d)

  pub field-some :
      (name : Key) (d : Dict e.Json) (v : e.Json) → lookup name d ≡ some v → field name d ≡ ok v
  unfolding field or_key_error
  field-some name d v h = rw h refl

  pub read_object-dumps : (d : Dict e.Json) → read_object (e.dumps (e.object d)) ≡ ok d
  unfolding read_object
  read_object-dumps d = rw (e.loads-dumps (e.object d)) (e.as_object-object d)

  pub read_time-some :
      (name : Key) (d : Dict e.Json) (t : ℕ)
      → lookup name d ≡ some (e.string (e.isoformat t))
      → read_time name d ≡ ok t
  unfolding read_time
  read_time-some name d t h =
      rw (field-some name d _ h)
        (rw (e.as_string-string (e.isoformat t)) (e.fromisoformat-isoformat t))
