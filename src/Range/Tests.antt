-- ===== src/Range/Tests.antt =====
-- Concrete ranges, and the theorems on them at concrete inputs.
use el_cache.Common.{◌≡◌, refl, List, [], ◌∷◌, true, some, arith, add64}
use el_cache.Range.Cover.{Tiles, compute-Tiles}
use el_cache.Range.{
  Range, ChunkRange, overlaps, intersect, compute_loop, compute, piece, chunk_size,
}

abbrev left : Range
left = record { offset = 2; length = 6 }

abbrev right : Range
right = record { offset = 5; length = 10 }

intersects : intersect left right ≡ record { offset = 5; length = 3 }
unfolding intersect add64
intersects = refl

-- An empty range inside another overlaps it, and their intersection is empty.
overlaps_empty : overlaps (record { offset = 5; length = 0 }) left ≡ true
unfolding overlaps add64
overlaps_empty = refl

computes :
    compute (record { offset = 6; length = 7 }) 4
    ≡ some (
        record { chunk_index = 1; offset_in_chunk = 2; length = 2 }
        ∷ record { chunk_index = 2; offset_in_chunk = 0; length = 4 }
        ∷ record { chunk_index = 3; offset_in_chunk = 0; length = 1 }
        ∷ [])
unfolding compute compute_loop piece add64
computes = refl

compute-Tiles_example :
    (rs : List ChunkRange) × (compute left chunk_size ≡ some rs) × Tiles chunk_size 2 rs 8
compute-Tiles_example = compute-Tiles left chunk_size (omega arith) (omega arith)
