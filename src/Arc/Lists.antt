-- ===== src/Arc/Lists.antt =====
-- `ARCCache::LRUList` and `ARCCache::GhostList` (include/elcache/arc_cache.hpp). The hash map of each
-- class only indexes its list by key, so a list alone is the state: the most recent entry is first,
-- and a look-up finds the entry that was pushed last.
use el_cache.Common.{ℕ, List, [], ◌∷◌, Bool, true, false, Option, none, some, ite, add64}

pub record Entry (K V : Type 0) : Type 0 where
  pub key : K
  pub value : V
  pub size : ℕ

module _ {A : Type 0} where
  abbrev pub empty : List A → Bool
  empty [] = true
  empty (x ∷ xs) = false

  -- The last element, and the list without it; `none` where the source would read an empty list.
  unfoldable pub pop_back : List A → Option (A × List A)
  pop_back [] = none
  pop_back (x ∷ xs) = elim (pop_back xs) [
    | none ↦ some (x, [])
    | some (e, rest) ↦ some (e, x ∷ rest)
  ]

module _ {K V : Type 0} where
  unfoldable pub total_loop : ℕ → List (Entry K V) → ℕ
  total_loop total [] = total
  total_loop total (e ∷ l) = total_loop (add64 total e.size) l

  unfoldable pub total_size : List (Entry K V) → ℕ
  unfolding total_loop add64
  total_size l = total_loop 0 l

  abbrev pub push_front : K → V → ℕ → List (Entry K V) → List (Entry K V)
  push_front key value size l = record { key = key; value = value; size = size } ∷ l

module _ {K V : Type 0} (dec : Discrete K) where
  unfoldable pub find : K → List (Entry K V) → Option (Entry K V)
  find key [] = none
  find key (e ∷ l) = ite (dec e.key key) (some e) (find key l)

  unfoldable pub erase : K → List (Entry K V) → List (Entry K V)
  erase key [] = []
  erase key (e ∷ l) = ite (dec e.key key) l (e ∷ erase key l)

  -- The entry that an iterator points to becomes the first one.
  abbrev pub move_to_front : Entry K V → List (Entry K V) → List (Entry K V)
  move_to_front e l = e ∷ erase e.key l

module _ {K : Type 0} (dec : Discrete K) where
  unfoldable pub ghost_contains : K → List K → Bool
  ghost_contains key [] = false
  ghost_contains key (k ∷ l) = ite (dec k key) true (ghost_contains key l)

  unfoldable pub ghost_erase : K → List K → List K
  ghost_erase key [] = []
  ghost_erase key (k ∷ l) = ite (dec k key) l (k ∷ ghost_erase key l)
