-- ===== src/Compactor/Newest.antt =====
-- What the two loops of `compact_levels` put into `merged_entries`.
use yellowdb.Prelude.{
  suc, ◌≡◌, refl, Bool, false, ◌&&◌, Option, none, some, List, [], ◌∷◌, arith, if◌then◌else◌,
  Bool-cases, Option-cases, inl, inr, ◌⊎◌, ◌∙◌, ap,
}
use yellowdb.Text.{Key}
use yellowdb.Text.Order.{key_eq, key_eq_iff, key_eq_refl}
use yellowdb.Dict.{Dict, lookup, insert, lookup-insert, lookup-insert_self}
use yellowdb.Dict.Distinct.{or_else}
use yellowdb.Items.{item}
use yellowdb.Cache.Defs.{Version}
use yellowdb.Wal.Recover.{Entry}
use yellowdb.SsTable.Defs.{SsTable}
use yellowdb.Platform.{Platform}
use yellowdb.Compactor.Merge.{version, is_newer, merge_newer, merge_absent}
use yellowdb.Compactor.Versions.{Covers, Occurs, first}

unfoldable pub newest_from : Key → List Entry → Option Version → Option Version
newest_from k [] best = best
newest_from k (e ∷ es) best =
    newest_from k es (if key_eq e.key k && is_newer best e then some (version e) else best)

lookup-merge_step :
    (j k : Key) (w : Version) (newer : Option Version → Bool) (m : Dict Version)
    → lookup k (if newer (lookup j m) then insert j w m else m)
      ≡ (if key_eq j k && newer (lookup k m) then some w else lookup k m)
lookup-merge_step j k w newer m = elim (Bool-cases (key_eq j k)) [
  | inl p ↦
      let q : j ≡ k = (key_eq_iff j k).0 p in
      elim (Bool-cases (newer (lookup k m))) [
        | inl n ↦ rw (q, n, key_eq_refl k) (lookup-insert_self k w m)
        | inr n ↦ rw (q, n, key_eq_refl k) refl
      ]
  | inr p ↦ elim (Bool-cases (newer (lookup j m))) [
    | inl n ↦ rw (n, lookup-insert j k w m, p) refl
    | inr n ↦ rw (n, p) refl
  ]
]

pub lookup-merge_newer :
    (k : Key) (es : List Entry) (m : Dict Version)
    → lookup k (merge_newer es m) ≡ newest_from k es (lookup k m)
unfolding merge_newer newest_from
lookup-merge_newer k [] m = refl
lookup-merge_newer k (e ∷ es) m =
    lookup-merge_newer k es _
    ∙ ap (newest_from k es) (lookup-merge_step e.key k (version e) (λ r. is_newer r e) m)

is_newer_step :
    (c : Bool) (x e : Entry) (best : Option Version)
    → is_newer best e ≡ false
    → is_newer (if c && is_newer best x then some (version x) else best) e ≡ false
unfolding is_newer
is_newer_step c x e none h = absurd (cc)
is_newer_step c x e (some v) h = ground arith

is_newer_self :
    (e : Entry) (best : Option Version)
    → is_newer (if is_newer best e then some (version e) else best) e ≡ false
unfolding is_newer
is_newer_self e none = ground arith
is_newer_self e (some v) = ground arith

newest_from-is_newer :
    (k : Key) (es : List Entry) (best : Option Version) (e : Entry)
    → is_newer best e ≡ false
    → is_newer (newest_from k es best) e ≡ false
unfolding newest_from is_newer
newest_from-is_newer k [] best e h = h
newest_from-is_newer k (x ∷ es) best e h =
    newest_from-is_newer k es _ e (is_newer_step (key_eq x.key k) x e best h)

pub newest_from-Covers :
    (k : Key) (es : List Entry) (best : Option Version) → Covers k es (newest_from k es best)
unfolding newest_from is_newer
newest_from-Covers k [] best = tt
newest_from-Covers k (e ∷ es) best =
    (λ h. newest_from-is_newer k es _ e (rw h (is_newer_self e best)), newest_from-Covers k es _)

pub newest_from_cases :
    (k : Key) (es : List Entry) (best : Option Version)
    → (newest_from k es best ≡ best) ⊎ Occurs k es (newest_from k es best)
unfolding newest_from item
newest_from_cases k [] best = inl refl
newest_from_cases k (e ∷ es) best = elim (Bool-cases (key_eq e.key k && is_newer best e)) [
  | inl p ↦ elim (newest_from_cases k es (some (version e))) [
    | inl q ↦ inr (0, e, refl, (key_eq_iff e.key k).0 (ground arith), rw p q)
    | inr (i, x, at, same, q) ↦ inr (suc i, x, at, same, rw p q)
  ]
  | inr p ↦ elim (newest_from_cases k es best) [
    | inl q ↦ inl (rw p q)
    | inr (i, x, at, same, q) ↦ inr (suc i, x, at, same, rw p q)
  ]
]

pub lookup-merge_absent :
    (k : Key) (es : List Entry) (m : Dict Version)
    → lookup k (merge_absent es m) ≡ or_else (lookup k m) (first k es)
unfolding merge_absent first
lookup-merge_absent k [] m = ground arith
lookup-merge_absent k (e ∷ es) m = elim (Option-cases (lookup e.key m)) [
  | inl n ↦ rw n (
      lookup-merge_absent k es (insert e.key (version e) m)
      ∙ rw (lookup-insert e.key k (version e) m) (elim (Bool-cases (key_eq e.key k)) [
        | inl p ↦
            let q : e.key ≡ k = (key_eq_iff e.key k).0 p in
            let n' : lookup k m ≡ none = rw q at n in rw (p, n') refl
        | inr p ↦ rw p refl
      ]))
  | inr (v, n) ↦ rw n (
      lookup-merge_absent k es m ∙ elim (Bool-cases (key_eq e.key k)) [
        | inl p ↦
            let q : e.key ≡ k = (key_eq_iff e.key k).0 p in
            let n' : lookup k m ≡ some v = rw q at n in rw (p, n') refl
        | inr p ↦ rw p refl
      ])
]
