-- ===== src/Memtable/SortedDict.antt =====
-- `sortedcontainers.SortedDict` with string keys. The package is not part of the repository: the
-- record names the methods that the memtable calls and what their documentation promises, in
-- terms of `items()`. `plain` shows that a sorted list of pairs meets it.
use yellowdb.Prelude.{ℕ, ◌≡◌, refl, Option, List, [], map, length}
use yellowdb.Text.{Key}
use yellowdb.Dict.{Dict, lookup}
use yellowdb.Memtable.Sorted.{insert_sorted, between}

pub record SortedDict (V : Type 0) : Type 1 where
  pub D : Type 0
  pub empty : D
  pub items : D → Dict V
  pub get : D → Key → Option V
  pub assign : D → Key → V → D
  pub irange : D → Key → Key → List Key
  pub len : D → ℕ
  pub items-empty : items empty ≡ []
  pub items-assign : (d : D) (k : Key) (v : V) → items (assign d k v) ≡ insert_sorted k v (items d)
  pub get-items : (d : D) (k : Key) → get d k ≡ lookup k (items d)
  pub irange-items :
      (d : D) (lo hi : Key) → irange d lo hi ≡ map (λ e. e.0) (between lo hi (items d))
  pub len-items : (d : D) → len d ≡ length (items d)

abbrev pub plain : (V : Type 0) → SortedDict V
plain V = record {
  D = Dict V;
  empty = [];
  items = λ d. d;
  get = λ d k. lookup k d;
  assign = λ d k v. insert_sorted k v d;
  irange = λ d lo hi. map (λ e. e.0) (between lo hi d);
  len = length;
  items-empty = refl;
  items-assign = λ d k v. refl;
  get-items = λ d k. refl;
  irange-items = λ d lo hi. refl;
  len-items = λ d. refl;
}
