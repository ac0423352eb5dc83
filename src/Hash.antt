-- ===== src/Hash.antt =====
-- `Hash128`, the hash of `CacheKey` and the content hash of `Chunk` where xxHash is not built in
-- (include/elcache/types.hpp, src/core/types.cpp, src/core/chunk.cpp).
use el_cache.Common.{
  ℕ, zero, suc, ◌+◌, ◌*◌, ◌/◌, ◌%◌, ◌^◌, Bool, true, false, List, [], ◌∷◌, ltb, ◌==◌, if◌then◌else◌,
  ◌&&◌, ◌||◌, mul64, u64_mod,
}
pub mod Order
pub mod Bounds
mod Tests

pub record Hash128 : Type 0 where
  pub low : ℕ
  pub high : ℕ

-- `operator==`
unfoldable pub equal : Hash128 → Hash128 → Bool
equal h other = (h.low == other.low) && (h.high == other.high)

-- `operator<`
unfoldable pub less : Hash128 → Hash128 → Bool
less h other = ltb h.high other.high || ((h.high == other.high) && ltb h.low other.low)

unfoldable pub is_zero : Hash128 → Bool
is_zero h = (h.low == 0) && (h.high == 0)

-- The lowest `n` bits of `a ^ b`.
unfoldable pub xor_bits : ℕ → ℕ → ℕ → ℕ
xor_bits zero a b = 0
xor_bits (suc n) a b = (a % 2 + b % 2) % 2 + 2 * xor_bits n (a / 2) (b / 2)

unfoldable pub xor64 : ℕ → ℕ → ℕ
xor64 a b = xor_bits 64 a b

abbrev pub fnv_basis : ℕ
fnv_basis = 14695981039346656037

abbrev pub fnv_prime : ℕ
fnv_prime = 1099511628211

abbrev pub golden : ℕ
golden = 0x9E3779B97F4A7C15

-- The loop of `fnv1a_64` from the given hash.
unfoldable pub fnv_loop : ℕ → List ℕ → ℕ
fnv_loop hash [] = hash
fnv_loop hash (b ∷ bytes) = fnv_loop (mul64 (xor64 hash b) fnv_prime) bytes

unfoldable pub fnv1a_64 : List ℕ → ℕ
fnv1a_64 bytes = fnv_loop fnv_basis bytes

pub record CacheKey : Type 0 where
  pub data_bytes : List ℕ
  pub hash : ℕ
  pub hash128 : Hash128

-- The constructor, with `compute_hash`.
unfoldable pub new_key : List ℕ → CacheKey
new_key [] = record { data_bytes = []; hash = 0; hash128 = record { low = 0; high = 0 } }
new_key (b ∷ bytes) =
    let hash : ℕ = fnv1a_64 (b ∷ bytes) in
    record {
      data_bytes = b ∷ bytes;
      hash = hash;
      hash128 = record { low = hash; high = xor64 (fnv1a_64 (b ∷ bytes)) golden };
    }

-- `(h << 13) | (h >> 51)`; the two parts have no bit in common.
unfoldable pub rotate : ℕ → ℕ
rotate h = (h * 2 ^ 13) % u64_mod + h / 2 ^ 51

-- The loop of `Chunk::id` from the given halves.
unfoldable pub id_loop : ℕ → ℕ → List ℕ → Hash128
id_loop h1 h2 [] = record { low = h1; high = h2 }
id_loop h1 h2 (b ∷ bytes) =
    id_loop (mul64 (xor64 h1 b) fnv_prime) (rotate (mul64 (xor64 h2 b) fnv_prime)) bytes

unfoldable pub chunk_id : List ℕ → Hash128
chunk_id bytes = id_loop fnv_basis (xor64 fnv_basis golden) bytes
