-- ===== src/Chunk.antt =====
-- `Chunk::read`, `ValueDescriptor` and `PartialValue` (include/elcache/chunk.hpp, src/core/chunk.cpp).
-- A chunk's identifier is its content hash, from a library or from the code below it; `ChunkId` is a
-- parameter.
use el_cache.Common.{
  ℕ, zero, suc, ◌+◌, ◌-◌, ◌*◌, ◌/◌, ◌%◌, ◌≡◌, Bool, true, false, Option, none, some, List, [], ◌∷◌,
  ◌++◌, ltb, leb, ◌==◌, if◌then◌else◌, ◌&&◌, ◌||◌, not, add64, sub64, mul64, length, take, drop,
  get_or, set, replicate, min, max,
}
use el_cache.Range.{Range, end, chunk_size}
pub mod Missing
mod Tests

-- `Chunk::read` on the chunk's bytes.
unfoldable pub read : List ℕ → ℕ → ℕ → List ℕ
read bytes offset len =
    if leb (length bytes) offset
    then []
    else let actual_length : ℕ = min len (length bytes - offset) in
      take actual_length (drop offset bytes)

-- `ValueDescriptor`, without the key and the metadata.
pub record Descriptor (ChunkId : Type 0) : Type 0 where
  pub total_size : ℕ
  pub chunks : List ChunkId

abbrev pub locate_chunk : ℕ → ℕ × ℕ
locate_chunk byte_offset = (byte_offset / chunk_size, byte_offset % chunk_size)

-- The indices from `i` up to `end_chunk` that lie below `count`.
unfoldable pub indices : ℕ → ℕ → ℕ → ℕ → List ℕ
indices zero i end_chunk count = []
indices (suc fuel) i end_chunk count =
    let rest = i ∷ indices fuel (suc i) end_chunk count in
    if leb i end_chunk && ltb i count then rest else []

-- The last chunk that a range within the size touches.
abbrev pub last_chunk : ℕ → ℕ
last_chunk end_offset = if ltb 0 end_offset then (end_offset - 1) / chunk_size else 0

module _ {ChunkId : Type 0} where
  -- Each round takes an index below the number of chunks, which is fuel enough.
  unfoldable pub chunks_for_range : Descriptor ChunkId → Range → List ℕ
  unfolding indices end
  chunks_for_range desc range =
      if (range.length == 0) || leb desc.total_size range.offset
      then []
      else indices (length desc.chunks) (range.offset / chunk_size)
          (last_chunk (min (end range) desc.total_size)) (length desc.chunks)

  unfoldable pub is_complete : Descriptor ChunkId → Bool
  unfolding add64
  is_complete desc = length desc.chunks == (add64 desc.total_size (chunk_size - 1)) / chunk_size

pub record PartialValue (ChunkId : Type 0) : Type 0 where
  pub total_size : ℕ
  pub chunk_availability : List Bool
  pub chunk_ids : List ChunkId

-- `missing.back()` is extended, or a new range is added.
unfoldable pub merge : List Range → ℕ → ℕ → List Range
merge [] miss_start len = record { offset = miss_start; length = len } ∷ []
merge (r ∷ []) miss_start len =
    if end r == miss_start
    then record r { length = add64 r.length len } ∷ []
    else r ∷ record { offset = miss_start; length = len } ∷ []
merge (r ∷ r' ∷ rs) miss_start len = r ∷ merge (r' ∷ rs) miss_start len

-- The outer loop of `available_ranges`; the inner one is the state in which a range is open.
unfoldable pub available_loop : ℕ → List Bool → ℕ → Option ℕ → ℕ → List Range
available_loop total [] i none stop = []
available_loop total [] i (some start) stop =
    record { offset = start; length = sub64 stop start } ∷ []
available_loop total (true ∷ bs) i none stop =
    available_loop total bs (suc i) (some (mul64 i chunk_size))
      (min (mul64 (suc i) chunk_size) total)
available_loop total (true ∷ bs) i (some start) stop =
    available_loop total bs (suc i) (some start) (min (mul64 (suc i) chunk_size) total)
available_loop total (false ∷ bs) i none stop = available_loop total bs (suc i) none stop
available_loop total (false ∷ bs) i (some start) stop =
    record { offset = start; length = sub64 stop start } ∷ available_loop total bs (suc i) none 0

-- The loop of `available_bytes` from chunk `i`.
unfoldable pub bytes_loop : ℕ → List Bool → ℕ → ℕ → ℕ
bytes_loop total [] i bytes = bytes
bytes_loop total (b ∷ bs) i bytes = bytes_loop total bs (suc i) (
    if b
    then if length bs == 0
      then add64 bytes (sub64 total (mul64 i chunk_size))
      else add64 bytes chunk_size
    else bytes)

module _ {ChunkId : Type 0} where
  unfoldable pub of_descriptor : Descriptor ChunkId → PartialValue ChunkId
  of_descriptor desc = record {
    total_size = desc.total_size;
    chunk_availability = replicate (length desc.chunks) false;
    chunk_ids = desc.chunks;
  }

  -- `false` out of range.
  unfoldable pub has_chunk : PartialValue ChunkId → ℕ → Bool
  has_chunk p index = get_or p.chunk_availability index false

  unfoldable pub mark_chunk_available : PartialValue ChunkId → ℕ → ChunkId → PartialValue ChunkId
  mark_chunk_available p index id =
      if leb (length p.chunk_availability) index then p else record p {
        chunk_availability = set p.chunk_availability index true;
        chunk_ids = set p.chunk_ids index id;
      }

  unfoldable pub mark_chunk_unavailable : PartialValue ChunkId → ℕ → PartialValue ChunkId
  mark_chunk_unavailable p index =
      if leb (length p.chunk_availability) index
      then p
      else record p { chunk_availability = set p.chunk_availability index false }

  -- The loop of `has_range` over `rounds` chunks from `i`.
  unfoldable pub has_all : PartialValue ChunkId → ℕ → ℕ → Bool
  unfolding has_chunk
  has_all p zero i = true
  has_all p (suc rounds) i =
      let rest = has_all p rounds (suc i) in if has_chunk p i then rest else false

  unfoldable pub has_range : PartialValue ChunkId → Range → Bool
  unfolding has_all end
  has_range p range =
      if range.length == 0
      then true
      else if leb p.total_size range.offset
      then false
      else let start_chunk : ℕ = range.offset / chunk_size in
        let end_chunk : ℕ = last_chunk (min (end range) p.total_size) in
        has_all p (suc end_chunk - start_chunk) start_chunk

  -- One round of `missing_ranges` at `current`: where the chunk ends, and the ranges so far.
  unfoldable pub missing_round : PartialValue ChunkId → ℕ → ℕ → List Range → ℕ × List Range
  unfolding has_chunk merge
  missing_round p effective_end current missing =
      let chunk_index : ℕ = current / chunk_size in
      let chunk_start : ℕ = chunk_index * chunk_size in
      let chunk_end : ℕ = min (add64 chunk_start chunk_size) p.total_size in
      let miss_start : ℕ = max current chunk_start in
      let miss_end : ℕ = min effective_end chunk_end in
      (
        chunk_end,
        if has_chunk p chunk_index
            then missing
            else merge missing miss_start (sub64 miss_end miss_start),
      )

  -- The loop on fuel; `none` means that the fuel ran out.
  unfoldable pub missing_loop : ℕ → PartialValue ChunkId → ℕ → ℕ → List Range → Option (List Range)
  missing_loop zero p effective_end current missing = none
  missing_loop (suc fuel) p effective_end current missing =
      let next = missing_round p effective_end current missing in
      let rest = missing_loop fuel p effective_end next.0 next.1 in
      if ltb current effective_end then rest else some missing

  -- Each round ends at least one byte further on.
  unfoldable pub missing_ranges : PartialValue ChunkId → Range → Option (List Range)
  missing_ranges p range =
      if (range.length == 0) || leb p.total_size range.offset
      then some []
      else let effective_end : ℕ = min (end range) p.total_size in
        missing_loop (suc (effective_end - range.offset)) p effective_end range.offset []

  unfoldable pub available_ranges : PartialValue ChunkId → List Range
  unfolding available_loop
  available_ranges p = available_loop p.total_size p.chunk_availability 0 none 0

  unfoldable pub available_bytes : PartialValue ChunkId → ℕ
  unfolding bytes_loop
  available_bytes p = bytes_loop p.total_size p.chunk_availability 0 0
