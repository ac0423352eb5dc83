-- ===== src/Hash/Order.antt =====
-- The order of `Hash128`, by which `std::map` and `std::set` keep their keys.
use el_cache.Common.{◌≡◌, ◌⊎◌, true, false, inl, inr, arith, Bool-cases}
use el_cache.Hash.{Hash128, equal, less}

-- The order is transitive.
pub less_transitive : (a b c : Hash128) → less a b ≡ true → less b c ≡ true → less a c ≡ true
unfolding less
less_transitive a b c h k = ground arith

same : (a b : Hash128) → a.low ≡ b.low → a.high ≡ b.high → a ≡ b
same a b e e' = cc

-- Of two hashes, exactly one is below the other, or they are equal; `operator==` says which.
pub less-equal :
    (a b : Hash128)
    → ((less a b ≡ true) × (less b a ≡ false) × (equal a b ≡ false))
      ⊎ (((less a b ≡ false) × (less b a ≡ true) × (equal a b ≡ false))
          ⊎ ((less a b ≡ false) × (less b a ≡ false) × (equal a b ≡ true) × (a ≡ b)))
unfolding less equal
less-equal a b = elim (Bool-cases (less a b)) [
  | inl lt ↦ inl (ground arith, ground arith, ground arith)
  | inr ge ↦ elim (Bool-cases (less b a)) [
    | inl gt ↦ inr (inl (ge, gt, ground arith))
    | inr le ↦ inr (inr (ge, le, ground arith, same a b (ground arith) (ground arith)))
  ]
]
