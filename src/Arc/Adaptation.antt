-- ===== src/Arc/Adaptation.antt =====
-- The adaptation parameter `p` of `ARCCache`, over the laws of `double` that its bounds need.
use el_cache.Common.{ℕ, ◌≡◌, false, arith, length}
use el_cache.Arc.Invariant.{evict_for_size-Evicts, slot, in_t1, in_t2, absent}
use el_cache.Arc.Put.{ghost, in_b1, in_b2, new}
use el_cache.Arc.{
  Doubles, Cache, put, store_t1, store_t2, trim_ghosts, update_t1, update_t2, grow_p, shrink_p,
}

-- What IEEE 754 gives: a comparison is not reflexive, sizes and their ratios are not negative, a sum
-- of non-negative numbers is not negative, and to subtract one does not increase a number.
pub record DoubleLaws (d : Doubles) : Type 0 where
  pub irreflexive : (a : d.Double) → d.less a a ≡ false
  pub size_nonneg : (n : ℕ) → d.less (d.of_size n) d.zero_point ≡ false
  pub one_nonneg : d.less d.one d.zero_point ≡ false
  pub ratio_nonneg : (a b : ℕ) → d.less (d.ratio a b) d.zero_point ≡ false
  pub add_nonneg :
      (a b : d.Double)
      → d.less a d.zero_point ≡ false
      → d.less b d.zero_point ≡ false
      → d.less (d.add a b) d.zero_point ≡ false
  pub sub_bounded :
      (a b c : d.Double)
      → d.less c a ≡ false
      → d.less b d.zero_point ≡ false
      → d.less c (d.sub a b) ≡ false

-- `p` is not below 0 and not above the capacity.
pub record InRange {K V : Type 0} (d : Doubles) (c : Cache K V d.Double) : Type 0 where
  pub not_below : d.less c.p d.zero_point ≡ false
  pub not_above : d.less (d.of_size c.capacity) c.p ≡ false

module _ {K V : Type 0} (d : Doubles) (laws : DoubleLaws d) where
  grow_p_range :
      (c : Cache K V d.Double)
      → d.less c.p d.zero_point ≡ false
      → (d.less (grow_p d c) d.zero_point ≡ false)
        × (d.less (d.of_size c.capacity) (grow_p d c) ≡ false)
  grow_p_range c h = ground (
    arith,
    laws.one_nonneg,
    laws.ratio_nonneg (length c.b2) (length c.b1),
    laws.add_nonneg c.p d.one,
    laws.add_nonneg c.p (d.ratio (length c.b2) (length c.b1)),
    laws.size_nonneg c.capacity,
    laws.irreflexive (d.of_size c.capacity),
  )

  shrink_p_range :
      (c : Cache K V d.Double)
      → d.less (d.of_size c.capacity) c.p ≡ false
      → (d.less (shrink_p d c) d.zero_point ≡ false)
        × (d.less (d.of_size c.capacity) (shrink_p d c) ≡ false)
  shrink_p_range c h = ground (
    arith,
    laws.one_nonneg,
    laws.ratio_nonneg (length c.b1) (length c.b2),
    laws.sub_bounded c.p d.one (d.of_size c.capacity),
    laws.sub_bounded c.p (d.ratio (length c.b1) (length c.b2)) (d.of_size c.capacity),
    laws.size_nonneg c.capacity,
    laws.irreflexive d.zero_point,
  )

  module _ (dec : Discrete K) where
    store_t1-InRange :
        (c : Cache K V d.Double) (key : K) (v : V) (s : ℕ)
        → InRange d c
        → InRange d (store_t1 d c key v s).0
    unfolding store_t1
    store_t1-InRange c key v s r =
        let kept = evict_for_size-Evicts d dec c s in
        record {
          not_below = rw kept.p r.not_below;
          not_above = rw (kept.p, kept.capacity) r.not_above;
        }

    store_t2-InRange :
        (c : Cache K V d.Double) (key : K) (v : V) (s : ℕ)
        → InRange d c
        → InRange d (store_t2 d c key v s).0
    unfolding store_t2
    store_t2-InRange c key v s r =
        let kept = evict_for_size-Evicts d dec c s in
        record {
          not_below = rw kept.p r.not_below;
          not_above = rw (kept.p, kept.capacity) r.not_above;
        }

    trim_ghosts-InRange : (c : Cache K V d.Double) → InRange d c → InRange d (trim_ghosts d c)
    unfolding trim_ghosts
    trim_ghosts-InRange c r = ground arith

    -- Over the named laws of `double`: `put` keeps `p` between 0 and the capacity, on every path.
    pub put-InRange :
        (size_fn : V → ℕ) (c : Cache K V d.Double) (key : K) (v : V)
        → InRange d c
        → InRange d (put d dec size_fn c key v).0
    unfolding put update_t1 update_t2
    put-InRange size_fn c key v r = elim (slot dec c key) [
      | in_t1 e hit ↦ rw (hit, put) (record { not_below = r.not_below; not_above = r.not_above })
      | in_t2 e miss hit ↦
          rw (miss, hit, put) (record { not_below = r.not_below; not_above = r.not_above })
      | absent miss miss' ↦ elim (ghost dec c key) [
        | in_b1 held ↦
            let (low, high) = grow_p_range c r.not_below in
            rw (miss, miss', held, put)
              (store_t2-InRange _ key v (size_fn v) (record { not_below = low; not_above = high }))
        | in_b2 lacking held ↦
            let (low, high) = shrink_p_range c r.not_above in
            rw (miss, miss', lacking, held, put)
              (store_t2-InRange _ key v (size_fn v) (record { not_below = low; not_above = high }))
        | new lacking lacking' ↦
            rw (miss, miss', lacking, lacking', put)
              (store_t1-InRange _ key v (size_fn v) (trim_ghosts-InRange c r))
      ]
    ]
