-- ===== src/Range/Cover.antt =====
-- What `ChunkRange::compute` returns: consecutive pieces that cover the range.
use el_cache.Common.{
  ℕ, zero, suc, ◌+◌, ◌-◌, ◌*◌, ◌/◌, ◌%◌, ◌≡◌, ◌≤◌, ◌<◌, some, List, [], ◌∷◌, arith, u64_mod, add64,
  refl, add64_exact, subst,
}
use el_cache.Range.{Range, ChunkRange, piece, compute_loop, compute}

-- The pieces are not empty, each lies in one chunk, and they follow one another from `start` to `stop`.
abbrev pub Tiles : ℕ → ℕ → List ChunkRange → ℕ → Type 0
Tiles size start [] stop = start ≡ stop
Tiles size start (r ∷ rs) stop =
    (r.chunk_index * size + r.offset_in_chunk ≡ start)
    × (0 < r.length)
    × (r.offset_in_chunk + r.length ≤ size)
    × Tiles size (start + r.length) rs stop

piece-Tiles :
    (size start r : ℕ)
    → 0 < size
    → ((start / size) * size + start % size ≡ start)
      × (0 < (piece size start (suc r)).length)
      × (start % size + (piece size start (suc r)).length ≤ size)
      × ((piece size start (suc r)).length ≤ suc r)
unfolding piece
piece-Tiles size start r h = (grind arith, grind arith, grind arith, omega arith)

-- One round, with what the rest of the loop returns.
compute_loop_step :
    (fuel size start r : ℕ) {rs : List ChunkRange}
    → (let l : ℕ = (piece size start (suc r)).length in
        add64 start l ≡ start + l
        → compute_loop fuel size (start + l) (suc r - l) ≡ some rs
        → compute_loop (suc fuel) size start (suc r) ≡ some (piece size start (suc r) ∷ rs))
unfolding compute_loop
compute_loop_step fuel size start r sum rest = ground arith

compute_loop-Tiles :
    (fuel size start remaining : ℕ)
    → 0 < size
    → start + remaining < u64_mod
    → remaining ≤ fuel
    → (rs : List ChunkRange) × (compute_loop fuel size start remaining ≡ some rs)
      × Tiles size start rs (start + remaining)
unfolding compute_loop piece
compute_loop-Tiles fuel size start zero h fits enough = ([], refl, omega arith)
compute_loop-Tiles zero size start (suc r) h fits enough = absurd (omega arith)
compute_loop-Tiles (suc fuel) size start (suc r) h fits enough =
    let (index, positive, inside, within) = piece-Tiles size start r h in
    let l : ℕ = (piece size start (suc r)).length in
    let step : add64 start l ≡ start + l = add64_exact start l (omega arith) in
    let e : start + l + (suc r - l) ≡ start + suc r = omega arith in
    let (rs, runs, tiles) =
      compute_loop-Tiles fuel size (start + l) (suc r - l) h (omega arith) (omega arith) in
    (
      piece size start (suc r) ∷ rs,
      compute_loop_step fuel size start r step runs,
      (index, positive, inside, subst (λ t. Tiles size (start + l) rs t) e tiles),
    )

-- With a positive chunk size and a range whose end fits in 64 bits, the loop ends, and its pieces
-- are not empty, lie in one chunk each, and follow one another from the start of the range to its end.
pub compute-Tiles :
    (range : Range) (size : ℕ)
    → 0 < size
    → range.offset + range.length < u64_mod
    → (rs : List ChunkRange) × (compute range size ≡ some rs)
      × Tiles size range.offset rs (range.offset + range.length)
unfolding compute
compute-Tiles range size h fits =
    compute_loop-Tiles _ size range.offset range.length h fits (omega arith)
