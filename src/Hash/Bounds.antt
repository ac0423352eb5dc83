-- ===== src/Hash/Bounds.antt =====
-- The hashes fit in their machine words.
use el_cache.Common.{ℕ, ◌<◌, List, [], ◌∷◌, arith, mul64, u64_mod}
use el_cache.Hash.{
  fnv_basis, fnv_prime, golden, fnv_loop, rotate, id_loop, chunk_id, xor64, xor_bits,
}

fnv_loop-bound : (hash : ℕ) (bytes : List ℕ) → hash < u64_mod → fnv_loop hash bytes < u64_mod
unfolding fnv_loop mul64
fnv_loop-bound hash [] h = h
fnv_loop-bound hash (b ∷ bytes) h =
    fnv_loop-bound (mul64 (xor64 hash b) fnv_prime) bytes (omega arith)

rotate-bound : (h : ℕ) → h < u64_mod → rotate h < u64_mod
unfolding rotate
rotate-bound h k = omega arith

id_loop-bound :
    (h1 h2 : ℕ) (bytes : List ℕ)
    → h1 < u64_mod
    → h2 < u64_mod
    → ((id_loop h1 h2 bytes).low < u64_mod) × ((id_loop h1 h2 bytes).high < u64_mod)
unfolding id_loop mul64
id_loop-bound h1 h2 [] k l = (k, l)
id_loop-bound h1 h2 (b ∷ bytes) k l =
    id_loop-bound (mul64 (xor64 h1 b) fnv_prime) (rotate (mul64 (xor64 h2 b) fnv_prime)) bytes
      (omega arith) (rotate-bound (mul64 (xor64 h2 b) fnv_prime) (omega arith))

start_bound : xor64 fnv_basis golden < u64_mod
unfolding xor64 xor_bits
start_bound = omega arith

-- Both halves of a chunk's content hash fit in 64 bits.
pub chunk_id-bound :
    (bytes : List ℕ) → ((chunk_id bytes).low < u64_mod) × ((chunk_id bytes).high < u64_mod)
unfolding chunk_id
chunk_id-bound bytes =
    id_loop-bound fnv_basis (xor64 fnv_basis golden) bytes (omega arith) start_bound
