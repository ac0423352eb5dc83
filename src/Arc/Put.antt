-- ===== src/Arc/Put.antt =====
-- `put` of `ARCCache` keeps the invariant, in each of its five cases.
use el_cache.Common.{
  ℕ, ◌+◌, ◌≡◌, ◌≤◌, inl, inr, true, false, arith, add64, sub64, Bool-cases, subst,
}
use el_cache.Arc.Lists.{ghost_contains}
use el_cache.Arc.Counting.{
  sum_sizes, count_key, same, find-erase, count_key-erase, count_key-find-none, count-ghost_erase,
  count-ghost_contains,
}
use el_cache.Arc.Evict.{IsAccounted, directory}
use el_cache.Arc.Invariant.{
  IsValid, in_t1, in_t2, absent, slot, store_t1-directory, store_t2-directory, store_t1-IsAccounted,
  store_t2-IsAccounted, trim_ghosts-directory, trim_ghosts-IsAccounted,
}
use el_cache.Arc.{Doubles, Cache, store_t1, trim_ghosts, update_t1, update_t2, put}

-- Which of its cases `put` takes for a key that is in neither `t1` nor `t2`.
pub data Ghost {K V P : Type 0} (dec : Discrete K) (c : Cache K V P) (key : K) : Type 0 where
  in_b1 : ghost_contains dec key c.b1 ≡ true → Ghost dec c key
  in_b2 : ghost_contains dec key c.b1 ≡ false → ghost_contains dec key c.b2 ≡ true → Ghost dec c key
  new : ghost_contains dec key c.b1 ≡ false → ghost_contains dec key c.b2 ≡ false → Ghost dec c key

pub ghost : {K V P : Type 0} (dec : Discrete K) (c : Cache K V P) (key : K) → Ghost dec c key
ghost dec c key = elim (Bool-cases (ghost_contains dec key c.b1)) [
  | inl held ↦ in_b1 held
  | inr lacking ↦ elim (Bool-cases (ghost_contains dec key c.b2)) [
    | inl held ↦ in_b2 lacking held
    | inr lacking' ↦ new lacking lacking'
  ]
]

module _ {K V : Type 0} (d : Doubles) (dec : Discrete K) (size_fn : V → ℕ) where
  -- A key that stood nowhere may be added once.
  add_new : (key : K) (n : K → ℕ) (q : K) → n key ≡ 0 → n q ≤ 1 → n q + same dec key q ≤ 1
  add_new key n q h k = elim (dec key q) [
    | yes p ↦ let z : n q ≡ 0 = subst (λ x. n x ≡ 0) p h in ground arith
    | no p ↦ ground arith
  ]

  -- The case of a key that no list holds.
  put_new-distinct :
      (c : Cache K V d.Double) (key : K) (v : V)
      → directory dec key c ≡ 0
      → ((q : K) → directory dec q c ≤ 1)
      → (q : K) → directory dec q (store_t1 d (trim_ghosts d c) key v (size_fn v)).0 ≤ 1
  put_new-distinct c key v fresh distinct q =
      let trim : directory dec key (trim_ghosts d c) ≡ 0 =
        omega (arith, trim_ghosts-directory d dec c key) in
      omega (
        arith,
        store_t1-directory d dec (trim_ghosts d c) key v (size_fn v) q,
        add_new key (λ x. directory dec x (trim_ghosts d c)) q trim
            (omega (arith, trim_ghosts-directory d dec c q, distinct q)),
      )

  put-distinct :
      (c : Cache K V d.Double) (key : K) (v : V)
      → ((q : K) → directory dec q c ≤ 1)
      → (q : K) → directory dec q (put d dec size_fn c key v).0 ≤ 1
  unfolding put update_t1 update_t2 count_key
  put-distinct c key v h q = elim (slot dec c key) [
    | in_t1 e hit ↦ rw (hit, put) (omega (arith, h q, count_key-erase dec q key c.t1 e hit))
    | in_t2 e miss hit ↦
        rw (miss, hit, put) (omega (arith, h q, count_key-erase dec q key c.t2 e hit))
    | absent miss miss' ↦ elim (ghost dec c key) [
      | in_b1 held ↦
          rw (miss, miss', held, put)
            (omega (
              arith,
              h q,
              store_t2-directory d dec _ key v (size_fn v) q,
              count-ghost_erase dec q key c.b1 held,
            ))
      | in_b2 lacking held ↦
          rw (miss, miss', lacking, held, put)
            (omega (
              arith,
              h q,
              store_t2-directory d dec _ key v (size_fn v) q,
              count-ghost_erase dec q key c.b2 held,
            ))
      | new lacking lacking' ↦
          let fresh : directory dec key c ≡ 0 = omega (
            arith,
            count_key-find-none dec key c.t1 miss,
            count_key-find-none dec key c.t2 miss',
            count-ghost_contains dec key c.b1 lacking,
            count-ghost_contains dec key c.b2 lacking',
          ) in
          rw (miss, miss', lacking, lacking', put) (put_new-distinct c key v fresh h q)
    ]
  ]

  put-IsAccounted :
      (c : Cache K V d.Double) (key : K) (v : V)
      → IsAccounted c
      → IsAccounted (put d dec size_fn c key v).0
  unfolding put update_t1 update_t2 sum_sizes add64 sub64
  put-IsAccounted c key v h = elim (slot dec c key) [
    | in_t1 e hit ↦ rw (hit, put) (omega (arith, find-erase dec key c.t1 e hit))
    | in_t2 e miss hit ↦ rw (miss, hit, put) (omega (arith, find-erase dec key c.t2 e hit))
    | absent miss miss' ↦ elim (ghost dec c key) [
      | in_b1 held ↦ rw (miss, miss', held, put) (store_t2-IsAccounted d dec _ key v (size_fn v) h)
      | in_b2 lacking held ↦
          rw (miss, miss', lacking, held, put) (store_t2-IsAccounted d dec _ key v (size_fn v) h)
      | new lacking lacking' ↦
          rw (miss, miss', lacking, lacking', put)
            (store_t1-IsAccounted d dec _ key v (size_fn v) (trim_ghosts-IsAccounted d dec c h))
    ]
  ]

  -- `put` keeps the invariant, whichever of its five cases it takes.
  pub put-IsValid :
      (c : Cache K V d.Double) (key : K) (v : V)
      → IsValid d dec c
      → IsValid d dec (put d dec size_fn c key v).0
  put-IsValid c key v h = record {
    distinct = put-distinct c key v h.distinct;
    accounted = put-IsAccounted c key v h.accounted;
  }
