-- ===== src/Chunk/Tests.antt =====
-- Examples for `Chunk`.
use el_cache.Common.{
  ℕ, ◌+◌, ◌*◌, ◌-◌, ◌↔◌, add64, ◌/◌, ◌≡◌, ◌≤◌, ◌<◌, refl, List, [], ◌∷◌, true, false, some, arith,
}
use el_cache.Range.{Range, chunk_size}
use el_cache.Chunk.Missing.{Covered, missing_ranges-exact}
use el_cache.Chunk.{PartialValue, has_chunk, missing_ranges, available_bytes}

-- Three chunks, the last of 10 bytes; the first is there.
abbrev three : PartialValue ℕ
three = record {
  total_size = 2 * chunk_size + 10;
  chunk_availability = true ∷ false ∷ false ∷ [];
  chunk_ids = 5 ∷ 6 ∷ 7 ∷ [];
}

abbrev across : Range
across = record { offset = chunk_size - 3; length = chunk_size + 3 + 50 }

three-available_bytes : available_bytes three ≡ chunk_size
unfolding available_bytes add64
three-available_bytes = refl

missing_ranges-exact_example :
    (rs : List Range) × (missing_ranges three across ≡ some rs)
    × ((x : ℕ)
        → Covered rs x ↔ (
            (across.offset ≤ x)
            × (x < across.offset + across.length)
            × (x < three.total_size)
            × (has_chunk three (x / chunk_size) ≡ false)))
missing_ranges-exact_example = missing_ranges-exact three across (omega arith) (omega arith)
