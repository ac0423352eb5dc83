-- ===== src/Range.antt =====
-- `Range` and `ChunkRange::compute` (include/elcache/types.hpp, src/core/types.cpp): byte ranges of a
-- value, and their division into pieces that lie in one chunk each.
use el_cache.Common.{
  ℕ, zero, suc, ◌+◌, ◌-◌, ◌*◌, ◌/◌, ◌%◌, ◌≡◌, Bool, Option, none, some, List, [], ◌∷◌, ltb, leb,
  ◌==◌, if◌then◌else◌, ◌&&◌, add64, min, max,
}
pub mod Cover
pub mod Overlap
mod Tests

-- 4 MB
abbrev pub chunk_size : ℕ
chunk_size = 4 * 1024 * 1024

pub record Range : Type 0 where
  pub offset : ℕ
  pub length : ℕ

unfoldable pub end : Range → ℕ
unfolding add64
end r = add64 r.offset r.length

unfoldable pub overlaps : Range → Range → Bool
unfolding end
overlaps r other = ltb r.offset (end other) && ltb other.offset (end r)

unfoldable pub intersect : Range → Range → Range
unfolding end
intersect r other =
    let start : ℕ = max r.offset other.offset in
    let stop : ℕ = min (end r) (end other) in
    if leb stop start
    then record { offset = 0; length = 0 }
    else record { offset = start; length = stop - start }

unfoldable pub contains : Range → Range → Bool
unfolding end
contains r other = leb r.offset other.offset && leb (end other) (end r)

unfoldable pub is_empty : Range → Bool
is_empty r = r.length == 0

pub record ChunkRange : Type 0 where
  pub chunk_index : ℕ
  pub offset_in_chunk : ℕ
  pub length : ℕ

-- One round of the loop: the piece at `current_offset`.
unfoldable pub piece : ℕ → ℕ → ℕ → ChunkRange
piece size current_offset remaining = record {
  chunk_index = current_offset / size;
  offset_in_chunk = current_offset % size;
  length = min remaining (size - current_offset % size);
}

-- The loop on fuel; `none` means that the fuel ran out.
unfoldable pub compute_loop : ℕ → ℕ → ℕ → ℕ → Option (List ChunkRange)
compute_loop fuel size current_offset zero = some []
compute_loop zero size current_offset (suc r) = none
compute_loop (suc fuel) size current_offset (suc r) =
    let p : ChunkRange = piece size current_offset (suc r) in
    elim (compute_loop fuel size (add64 current_offset p.length) (suc r - p.length)) [
      | none ↦ none
      | some rest ↦ some (p ∷ rest)
    ]

-- Each round takes at least one byte, so `length` rounds are enough.
unfoldable pub compute : Range → ℕ → Option (List ChunkRange)
unfolding compute_loop
compute range size = compute_loop range.length size range.offset range.length
