-- ===== src/Hash/Tests.antt =====
-- Examples for the hashes.
use el_cache.Common.{◌≡◌, refl, [], ◌∷◌, mul64}
use el_cache.Hash.{xor64, xor_bits, fnv1a_64, fnv_loop}

-- The published value of FNV-1a for `a`.
fnv1a_64-letter : fnv1a_64 (97 ∷ []) ≡ 0xAF63DC4C8601EC8C
unfolding fnv1a_64 fnv_loop xor64 xor_bits mul64
fnv1a_64-letter = refl
