-- ===== src/Arc/Space.antt =====
-- The size of an `ARCCache` after `put`: within the capacity where the key was not resident, and not
-- bounded by it where it was.
use el_cache.Common.{
  ℕ, ◌+◌, ◌≡◌, ◌≤◌, ◌<◌, refl, List, [], ◌∷◌, true, false, none, some, arith, u64_mod, add64, max,
}
use el_cache.Arc.Lists.{Entry, find, empty}
use el_cache.Arc.Counting.{sum_sizes, find-erase}
use el_cache.Arc.Evict.{IsAccounted, resident_size, evict_loop_ends}
use el_cache.Arc.Invariant.{evict_for_size-Evicts}
use el_cache.Arc.Store.{put_cases, updates_t1, updates_t2, stores_t1, stores_t2}
use el_cache.Arc.{
  Doubles, Cache, put, contains, update_t1, update_t2, store_t1, store_t2, trim_ghosts,
  evict_for_size, must_evict,
}

empty-sum_sizes : {K V : Type 0} (l : List (Entry K V)) → empty l ≡ true → sum_sizes l ≡ 0
unfolding sum_sizes
empty-sum_sizes [] h = refl
empty-sum_sizes (e ∷ l) h = cc

module _ {K V : Type 0} (d : Doubles) (dec : Discrete K) where
  evict_for_size_ends :
      (c : Cache K V d.Double) (needed : ℕ)
      → must_evict d (evict_for_size d c needed []).0 needed ≡ false
  unfolding evict_for_size
  evict_for_size_ends c needed = evict_loop_ends d _ needed (c, []) (omega arith)

  -- After the eviction either the new value fits, or nothing is left.
  evict_for_size_fits :
      (c : Cache K V d.Double) (s : ℕ)
      → IsAccounted c
      → resident_size c + s < u64_mod
      → (let c' = (evict_for_size d c s []).0 in resident_size c' + s ≤ max c.capacity s)
  unfolding add64
  evict_for_size_fits c s accounted fits =
      let c' = (evict_for_size d c s []).0 in
      let kept = evict_for_size-Evicts d dec c s in
      let acc : IsAccounted c' = kept.accounted accounted in
      let same_cap = kept.capacity in
      let less = kept.less in
      ground (arith, evict_for_size_ends c s, empty-sum_sizes c'.t1, empty-sum_sizes c'.t2)

  store_t1_fits :
      (c : Cache K V d.Double) (key : K) (v : V) (s : ℕ)
      → IsAccounted c
      → resident_size c + s < u64_mod
      → resident_size (store_t1 d c key v s).0 ≤ max c.capacity s
  unfolding store_t1 sum_sizes
  store_t1_fits c key v s acc h = omega (arith, evict_for_size_fits c s acc h)

  store_t2_fits :
      (c : Cache K V d.Double) (key : K) (v : V) (s : ℕ)
      → IsAccounted c
      → resident_size c + s < u64_mod
      → resident_size (store_t2 d c key v s).0 ≤ max c.capacity s
  unfolding store_t2 sum_sizes
  store_t2_fits c key v s acc h = omega (arith, evict_for_size_fits c s acc h)

  trim_ghosts-fields :
      (c : Cache K V d.Double)
      → ((trim_ghosts d c).t1 ≡ c.t1)
        × ((trim_ghosts d c).t2 ≡ c.t2)
        × ((trim_ghosts d c).capacity ≡ c.capacity)
        × ((trim_ghosts d c).current_size ≡ c.current_size)
  unfolding trim_ghosts
  trim_ghosts-fields c = ground arith

  fields-IsAccounted :
      (c c' : Cache K V d.Double)
      → c'.t1 ≡ c.t1
      → c'.t2 ≡ c.t2
      → c'.current_size ≡ c.current_size
      → (resident_size c' ≡ resident_size c) × (IsAccounted c → IsAccounted c')
  fields-IsAccounted c c' h1 h2 h3 = ground arith

  -- The size of the entry that the key has, if it is resident.
  abbrev pub held_size : Cache K V d.Double → K → ℕ
  held_size c key = elim (find dec key c.t1) [
    | some e ↦ e.size
    | none ↦ elim (find dec key c.t2) [ some e ↦ e.size | none ↦ 0 ]
  ]

  module _ (size_fn : V → ℕ) where
    -- Where the key is not resident, `current_size` is the size of the entries, and the sizes do not
    -- reach 2 ^ 64, the entries take at most the capacity afterwards, or the new value's size where
    -- that alone is larger.
    pub put_fits :
        (c : Cache K V d.Double) (key : K) (v : V)
        → contains d dec c key ≡ false
        → IsAccounted c
        → resident_size c + size_fn v < u64_mod
        → resident_size (put d dec size_fn c key v).0 ≤ max c.capacity (size_fn v)
    unfolding contains
    put_fits c key v away acc h = elim (put_cases d dec size_fn c key v) [
      | updates_t1 e hit eq ↦ ground (arith, hit)
      | updates_t2 e miss hit eq ↦ ground (arith, miss, hit)
      | stores_t2 c' h1 h2 same_cap size h3 miss miss' eq ↦
          let (res, acc') = fields-IsAccounted c c' h1 h2 size in
          rw eq (omega (arith, store_t2_fits c' key v (size_fn v) (acc' acc) (omega arith)))
      | stores_t1 miss miss' eq ↦
          let (h1, h2, same_cap, size) = trim_ghosts-fields c in
          let (res, acc') = fields-IsAccounted c (trim_ghosts d c) h1 h2 size in
          rw eq (
            omega
              (arith, store_t1_fits (trim_ghosts d c) key v (size_fn v) (acc' acc) (omega arith)))
    ]

    -- Where the key is resident, `put` evicts nothing: the new size takes the place of the old one,
    -- whatever the capacity is.
    pub put_resident :
        (c : Cache K V d.Double) (key : K) (v : V)
        → contains d dec c key ≡ true
        → ((put d dec size_fn c key v).1 ≡ [])
          × (resident_size (put d dec size_fn c key v).0 + held_size c key
              ≡ resident_size c + size_fn v)
    unfolding contains update_t1 update_t2 sum_sizes
    put_resident c key v here = elim (put_cases d dec size_fn c key v) [
      | updates_t1 e hit eq ↦
          let old : held_size c key ≡ e.size = ground (arith, hit) in
          rw eq (refl, omega (arith, find-erase dec key c.t1 e hit))
      | updates_t2 e miss hit eq ↦
          let old : held_size c key ≡ e.size = ground (arith, miss, hit) in
          rw eq (refl, omega (arith, find-erase dec key c.t2 e hit))
      | stores_t2 c' h1 h2 same_cap size h3 miss miss' eq ↦ ground (arith, miss, miss')
      | stores_t1 miss miss' eq ↦ ground (arith, miss, miss')
    ]
