-- ===== src/Memory/Assemble.antt =====
-- `MemoryCache::assemble_value`: the bytes of a range from its chunks.
use el_cache.Common.{
  take-take, drop-take, take-append_take, ℕ, zero, suc, ◌+◌, ◌-◌, ◌*◌, ◌/◌, ◌≡◌, ◌⊎◌, ◌≤◌, ◌<◌,
  refl, true, false, Option, none, some, List, [], ◌∷◌, ◌++◌, arith, Bool-cases, inl, inr, ltb, leb,
  if◌then◌else◌, length, length-take, length-drop, take, drop, min, drop-drop, u64_mod, add64,
  sub64,
}
use el_cache.Range.{Range, chunk_size}
use el_cache.Chunk.{read}
use el_cache.Memory.Split.{chunk_at}
use el_cache.Memory.{assemble_loop, assemble_value}

-- `n` chunks of a value from chunk `k` on, all of them found.
unfoldable pub chunks_from : ℕ → ℕ → List ℕ → List (Option (List ℕ))
chunks_from k zero value = []
chunks_from k (suc n) value = some (chunk_at k value) ∷ chunks_from (suc k) n value

length-chunk_at :
    (k : ℕ) (value : List ℕ)
    → length (chunk_at k value) ≡ min chunk_size (length value - k * chunk_size)
unfolding chunk_at
length-chunk_at k value =
    rw (length-take chunk_size (drop (k * chunk_size) value), length-drop (k * chunk_size) value)
      refl

drop-chunk_at :
    (k o : ℕ) (value : List ℕ)
    → drop o (chunk_at k value) ≡ take (chunk_size - o) (drop (k * chunk_size + o) value)
unfolding chunk_at
drop-chunk_at k o value =
    rw (drop-take o chunk_size (drop (k * chunk_size) value), drop-drop (k * chunk_size) o value)
      refl

-- A piece of a chunk is that piece of the value.
read-chunk_at :
    (k start n : ℕ) (value : List ℕ)
    → k * chunk_size ≤ start
    → start + n ≤ suc k * chunk_size
    → start + n ≤ length value
    → 0 < n
    → read (chunk_at k value) (start - k * chunk_size) n ≡ take n (drop start value)
unfolding read
read-chunk_at k start n value low high fits some_bytes =
    let o : ℕ = start - k * chunk_size in
    let len = length-chunk_at k value in
    let inside : leb (length (chunk_at k value)) o ≡ false = ground (arith, len) in
    let whole : min n (length (chunk_at k value) - o) ≡ n = ground (arith, len) in
    let place : k * chunk_size + o ≡ start = omega arith in
    rw (inside, whole, read, drop-chunk_at k o value, place)
      (take-take n (chunk_size - o) (drop start value) (omega arith))

-- The first round's step and the end of the loop.
assemble_loop_more :
    (k start remaining n : ℕ) (bytes : List ℕ) (chunks : List (Option (List ℕ)))
    → 0 < remaining
    → start < u64_mod
    → k * chunk_size ≤ start
    → start - k * chunk_size ≤ length bytes
    → length bytes < u64_mod
    → n ≡ min remaining (length bytes - (start - k * chunk_size))
    → start + n < u64_mod
    → assemble_loop k (some bytes ∷ chunks) start remaining
      ≡ read bytes (start - k * chunk_size) n
        ++ assemble_loop (suc k) chunks (start + n) (remaining - n)
unfolding assemble_loop add64 sub64
assemble_loop_more k start remaining n bytes chunks pos bound low inside small e end_bound =
    let more : ltb 0 remaining ≡ true = ground arith in
    let off : (if ltb (k * chunk_size) start then start - k * chunk_size else 0)
        ≡ start - k * chunk_size =
      ground arith in
    let left : sub64 (length bytes) (start - k * chunk_size)
        ≡ length bytes - (start - k * chunk_size) =
      ground arith in
    let next : add64 start n ≡ start + n = ground arith in rw (more, off, left, ← e, next) refl

assemble_loop_end :
    (k start : ℕ) (chunks : List (Option (List ℕ))) → assemble_loop k chunks start 0 ≡ []
unfolding assemble_loop
assemble_loop_end k start [] = refl
assemble_loop_end k start (none ∷ chunks) = refl
assemble_loop_end k start (some bytes ∷ chunks) = refl

-- Where a round ends: at the end of the range, or of its chunk.
abbrev Placed : ℕ → ℕ → ℕ → Type 0
Placed k start remaining =
    (remaining ≡ 0) ⊎ ((k * chunk_size ≤ start) × (start < suc k * chunk_size))

round_end-Placed :
    (k start remaining m size : ℕ) (value : List ℕ)
    → start + remaining ≤ length value
    → k * chunk_size ≤ start
    → start < suc k * chunk_size
    → size ≡ min chunk_size (length value - k * chunk_size)
    → m ≡ min remaining (size - (start - k * chunk_size))
    → Placed (suc k) (start + m) (remaining - m)
round_end-Placed k start remaining m size value fits low high e e' =
    elim (Bool-cases (leb remaining m)) [
      | inl last ↦ inl (ground arith)
      | inr more ↦ inr (ground arith, ground arith)
    ]

assemble_loop-chunks_from :
    (n k start remaining : ℕ) (value : List ℕ)
    → length value < u64_mod
    → start + remaining ≤ length value
    → Placed k start remaining
    → start + remaining ≤ (k + n) * chunk_size
    → assemble_loop k (chunks_from k n value) start remaining ≡ take remaining (drop start value)
unfolding chunks_from assemble_loop
assemble_loop-chunks_from n k start remaining value small fits (inl e) enough =
    rw (e, assemble_loop_end k start (chunks_from k n value)) refl
assemble_loop-chunks_from zero k start remaining value small fits (inr (low, high)) enough =
    let e : remaining ≡ 0 = omega arith in
    rw (e, assemble_loop_end k start (chunks_from k zero value)) refl
assemble_loop-chunks_from (suc n) k start remaining value small fits (inr (low, high)) enough =
    elim (Bool-cases (ltb 0 remaining)) [
      | inr stop ↦
          let e : remaining ≡ 0 = ground arith in
          rw (e, assemble_loop_end k start (chunks_from k (suc n) value)) refl
      | inl go ↦
          let len = length-chunk_at k value in
          let m : ℕ = min remaining (length (chunk_at k value) - (start - k * chunk_size)) in
          let sum : m + (remaining - m) ≡ remaining = omega arith in
          let rest =
            assemble_loop-chunks_from n (suc k) (start + m) (remaining - m) value small
              (omega arith)
              (round_end-Placed k start remaining m (length (chunk_at k value)) value fits low high
                len refl)
              (omega arith) in
          rw
            (
              chunks_from,
              assemble_loop_more k start remaining m (chunk_at k value)
                  (chunks_from (suc k) n value) (ground arith) (omega arith) low
                  (omega (arith, len)) (omega (arith, len)) refl (omega arith),
              read-chunk_at k start m value low (omega (arith, len)) (omega (arith, len))
                  (ground (arith, len)),
              rest,
              ← drop-drop start m value,
              take-append_take m (remaining - m) (drop start value),
              sum,
            )
            refl
    ]

-- For a value below 2 ^ 64 bytes and a range within it: the bytes assembled from the value's chunks,
-- from the range's first one on and enough of them, are those of the range.
pub assemble_value-chunks_from :
    (value : List ℕ) (range : Range) (n : ℕ)
    → length value < u64_mod
    → range.offset + range.length ≤ length value
    → range.offset + range.length ≤ (range.offset / chunk_size + n) * chunk_size
    → assemble_value (chunks_from (range.offset / chunk_size) n value) range
      ≡ take range.length (drop range.offset value)
unfolding assemble_value
assemble_value-chunks_from value range n small fits enough =
    assemble_loop-chunks_from n (range.offset / chunk_size) range.offset range.length value small
      fits (inr (omega arith, omega arith)) enough
