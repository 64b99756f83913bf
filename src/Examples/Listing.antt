-- ===== src/Examples/Listing.antt =====
-- What `get_user_sessions` lists.
use yellowdb.Prelude.{
  ℕ, ◌≡◌, refl, ap, ◌∙◌, sym, some, List, [], ◌∷◌, map, if◌then◌else◌, Bool-cases, inl, inr,
}
use yellowdb.Errors.{ok, ok_inj}
use yellowdb.Text.{Key, Bytes}
use yellowdb.Text.Literal.{codes}
use yellowdb.Text.Order.{key_eq}
use yellowdb.Dict.{Dict, lookup}
use yellowdb.Examples.Environment.{Environment}
use yellowdb.Examples.Store.{Store}
use yellowdb.Examples.Prefix.{with_prefix, each, gather_lem}
use yellowdb.Examples.Json.{field-some, read_object-dumps}
use yellowdb.Examples.SessionStore.{prefix}
use yellowdb.Examples.SessionScans.{user_round, gather_sessions, get_user_sessions}

module _ (e : Environment) (store : Store) (ttl_seconds : ℕ) where
  -- The entries hold sessions with these numbers and users.
  pub data Listed : List (Key × Bytes) → List (Key × Key) → Type 0 where
    none_listed : Listed [] []
    one_listed :
        {k : Key} {d : Dict e.Json} {es : List (Key × Bytes)} {xs : List (Key × Key)}
        (session_id user_id : Key)
        → lookup (codes "user_id") d ≡ some (e.string user_id)
        → lookup (codes "session_id") d ≡ some (e.string session_id)
        → Listed es xs
        → Listed ((k, e.dumps (e.object d)) ∷ es) ((session_id, user_id) ∷ xs)

  -- the numbers of the sessions of a user
  unfoldable pub sessions_of : Key → List (Key × Key) → List Key
  sessions_of user_id [] = []
  sessions_of user_id ((session_id, owner) ∷ xs) =
      let rest = sessions_of user_id xs in if key_eq owner user_id then session_id ∷ rest else rest

  each-user_round :
      {es : List (Key × Bytes)} {xs : List (Key × Key)} (user_id : Key)
      → Listed es xs
      → each (user_round e store ttl_seconds user_id) es
        ≡ ok (map e.string (sessions_of user_id xs))
  unfolding each user_round sessions_of
  each-user_round user_id none_listed = refl
  each-user_round user_id (one_listed {d = d} session_id owner u s l) =
      let ih = each-user_round user_id l in
      let same = e.same-string owner user_id in
      elim (Bool-cases (key_eq owner user_id)) [
        | inl q ↦
            rw
              (
                read_object-dumps e d,
                field-some e (codes "user_id") d _ u,
                same,
                q,
                field-some e (codes "session_id") d _ s,
                ih,
              )
              refl
        | inr q ↦ rw (read_object-dumps e d, field-some e (codes "user_id") d _ u, same, q, ih) refl
      ]

  -- On a store that is in order, where the entries that a scan from the prefix lists with it are
  -- sessions, get_user_sessions returns the numbers of all those of the user, in the order of the
  -- scan, and changes nothing: the loop ends at no key before the last session.
  pub get_user_sessions_lem :
      (user_id : Key) (s : store.S) (es : List (Key × Bytes)) (xs : List (Key × Key))
      → store.IsReady s
      → store.scan (some prefix) s ≡ ok es
      → Listed (with_prefix prefix es) xs
      → get_user_sessions e store ttl_seconds user_id s
        ≡ (ok (map e.string (sessions_of user_id xs)), s)
  unfolding get_user_sessions gather_sessions
  get_user_sessions_lem user_id s es xs v h l =
      let (es', h', sorted, from) = store.scan_lem prefix s v in
      let same : es' ≡ es = ok_inj (sym h' ∙ h) in
      let found =
        gather_lem (user_round e store ttl_seconds user_id) prefix es' sorted from
        ∙ ap (λ x. each (user_round e store ttl_seconds user_id) (with_prefix prefix x)) same
        ∙ each-user_round user_id l in
      rw (h', found) refl
