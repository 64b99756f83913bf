-- ===== src/Database/Recovery.antt =====
-- What a database that is opened over a log returns.
use yellowdb.Prelude.{
  ℕ, zero, suc, ◌<◌, ◌≡◌, refl, ap, Bool, true, false, Option, none, some, List, [], ◌∷◌, ◌++◌, All,
  if◌then◌else◌, Bool-cases, inl, inr,
}
use yellowdb.Errors.{Result, ok}
use yellowdb.Text.{Key, Bytes}
use yellowdb.Text.Order.{key_eq}
use yellowdb.Dict.{lookup}
use yellowdb.Serializer.KeyCache.{KeyCache, encode_key}
use yellowdb.Serializer.RoundTrip.{record_bytes-encode_key}
use yellowdb.Cache.Defs as Cache
use yellowdb.Cache.Defs.{Version}
use yellowdb.Cache.Laws as CacheLaws
use yellowdb.Memtable.Laws
use yellowdb.Memtable.Fresh.{get-new, new-IsValid, get-new_sharded}
use yellowdb.Wal.Defs as Wal
use yellowdb.Wal.Defs.{WalFile, Wal}
use yellowdb.Wal.Recover.{Entry, recover, read_files}
use yellowdb.Wal.Replay.{Encodes, nil, cons}
use yellowdb.Compactor.Defs as Compactor
use yellowdb.Compactor.Defs.{search_levels, search_tables, search_key}
use yellowdb.Platform.{Platform}
use yellowdb.Database.Source
use yellowdb.Database.Source.{Source, concurrent, single, fresh}
use yellowdb.Database.SourceLaws.{IsValid, put-IsValid, get-put_source, put-ok}
use yellowdb.Database.Read.{visible}
use yellowdb.Database.Open.{then_replay, replay, open_database}
use yellowdb.Database.View.{found_in, stored_value, Agrees, IsCoherent}

-- what the entries leave at a key that had `o`: the last one counts
unfoldable pub latest : Key → List Entry → Option Bytes → Option Bytes
latest j [] o = o
latest j (e ∷ es) o = latest j es (if key_eq e.key j then visible e.value e.deleted else o)

pub latest-append :
    (j : Key) (es fs : List Entry) (o : Option Bytes)
    → latest j (es ++ fs) o ≡ latest j fs (latest j es o)
unfolding latest
latest-append j [] fs o = refl
latest-append j (e ∷ es) fs o = latest-append j es fs _

-- every key can be encoded
abbrev pub IsEncodable : List Entry → Type 0
IsEncodable es = All (λ (e : Entry). (b : Bytes) × (encode_key e.key ≡ ok b)) es

module _ (p : Platform) where
  pub Encodes-IsEncodable :
      {es : List Entry} {bs : Bytes} → Encodes p.z p.config es bs → IsEncodable es
  Encodes-IsEncodable nil = tt
  Encodes-IsEncodable (cons {e = e} h x) = (
    record_bytes-encode_key p.z p.config e.key e.value e.timestamp e.deleted false h,
    Encodes-IsEncodable x,
  )

  fresh_lem :
      0 < p.config.concurrent_memtable_count
      → IsValid p (fresh p) × ((j : Key) → Source.get p j (fresh p) ≡ ok none)
  unfolding fresh Source.get
  fresh_lem h = elim (Bool-cases p.config.enable_concurrent_memtables) [
    | inl q ↦ rw q (
      new-IsValid p.sd p.hash p.config.concurrent_memtable_count h,
      λ j. get-new_sharded p.sd p.hash p.config.concurrent_memtable_count j h,
    )
    | inr q ↦ rw q (Laws.new-IsValid p.sd, λ j. ap ok (get-new p.sd j))
  ]

  found_in-put :
      (j : Key) (e : Entry) (m m' : Source p) (o : Option Bytes)
      → IsValid p m
      → Source.put p e.key e.value e.timestamp e.deleted m ≡ ok m'
      → found_in (Source.get p j m) none ≡ ok o
      → found_in (Source.get p j m') none
        ≡ ok (if key_eq e.key j then visible e.value e.deleted else o)
  unfolding found_in
  found_in-put j e m m' o v h f =
      let g = get-put_source p e.key e.value e.timestamp e.deleted m v h j in
      elim (Bool-cases (key_eq e.key j)) [ inl q ↦ rw (g, q) refl | inr q ↦ rw (g, q) f ]

  -- replaying entries whose keys can be encoded leaves the last entry of each key
  replay_lem :
      (es : List Entry) (m : Source p)
      → IsEncodable es
      → IsValid p m
      → IsValid p (replay p es m)
        × ((j : Key) (o : Option Bytes)
            → found_in (Source.get p j m) none ≡ ok o
            → found_in (Source.get p j (replay p es m)) none ≡ ok (latest j es o))
  unfolding replay then_replay latest
  replay_lem [] m a v = (v, λ j o f. f)
  replay_lem (e ∷ es) m a v =
      let (m', h) = put-ok p e.key e.value e.timestamp e.deleted m v a.0.1 in
      let v' = put-IsValid p e.key e.value e.timestamp e.deleted m v h in
      let (w, g) = replay_lem es m' a.1 v' in
      rw h (w, λ j o f. g j _ (found_in-put j e m m' o v h f))

  search_levels-new : (j : Key) (i n : ℕ) → search_levels p j Compactor.new i n ≡ none
  unfolding search_levels search_tables Compactor.new
  search_levels-new j i zero = refl
  search_levels-new j i (suc n) = search_levels-new j (suc i) n

  search_key-new : (j : Key) → search_key p j Compactor.new ≡ none
  unfolding search_key
  search_key-new j = search_levels-new j 0 p.config.compaction_threshold

  new-Agrees :
      (b : Bool) (f : Key → Result (Option Bytes))
      → Agrees p (if b then some (Cache.new p.config none) else none) f
  unfolding Cache.new lookup CacheLaws.total_size
  new-Agrees true f = (record { distinct = tt; counted = refl }, λ j v h. absurd (cc))
  new-Agrees false f = tt

  fresh-found :
      (j : Key)
      → 0 < p.config.concurrent_memtable_count
      → found_in (Source.get p j (fresh p)) none ≡ ok none
  unfolding found_in
  fresh-found j h = rw ((fresh_lem h).1 j) refl

  -- A database that is opened over files from which `es` is read is coherent, and has the last
  -- entry of every key.
  pub open_database_lem :
      (files : List WalFile) (keys : KeyCache) (now : ℕ) (es : List Entry)
      → 0 < p.config.concurrent_memtable_count
      → read_files p.z files ≡ es
      → IsEncodable es
      → IsCoherent p (open_database p files keys now)
        × ((j : Key)
            → stored_value p j
                (open_database p files keys now).memtable
                (open_database p files keys now).compactor
              ≡ ok (latest j es none))
  unfolding open_database recover Wal.new stored_value
  open_database_lem files keys now es h r a =
      let (v, g) = replay_lem es (fresh p) a (fresh_lem h).0 in
      (
        record { memtable = rw r v; cache = new-Agrees p.config.enable_cache _ },
        λ j. rw (r, search_key-new j) (g j none (fresh-found j h)),
      )
