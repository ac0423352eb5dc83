-- ===== src/Memory/Get.antt =====
-- `MemoryCache::put` and `MemoryCache::get`: what is read back of a value.
use el_cache.Common.{
  ℕ, zero, suc, ◌+◌, ◌-◌, ◌*◌, ◌/◌, ◌≡◌, ◌≤◌, ◌<◌, refl, Bool, true, false, ◌==◌, none, some, List,
  [], ◌∷◌, arith, inr, leb, length, length-take, length-drop, get_elem?, take, drop, min, u64_mod,
}
use el_cache.Range.{Range, chunk_size}
use el_cache.Arc.{Doubles, Cache}
use el_cache.Arc.Invariant.{IsValid}
use el_cache.Chunk.{chunks_for_range}
use el_cache.Memory.Split.{get_elem?-split_value}
use el_cache.Memory.Assemble.{chunks_from, assemble_value-chunks_from}
use el_cache.Memory.Fetch.{
  numbers_from, touched, chunks_for_range-numbers_from, fetch-chunks_from, IsResident,
}
use el_cache.Memory.{
  split_value, ids_of, get_descriptor, MemoryCache, Stored, CacheMetadata, ReadOptions, requested,
  ReadResult, hit, is_expired, assemble_result, get,
}

-- The range that a read of a value asks for, cut off at the value's end.
abbrev pub asked : ReadOptions → List ℕ → Range
asked opts value =
    let r : Range = requested opts.range (length value) in
    record { offset = r.offset; length = min r.length (length value - r.offset) }

-- A hit with the bytes of a range of a value.
abbrev pub slice_of : List ℕ → Range → CacheMetadata → ReadResult
slice_of value r metadata = record {
  result = hit;
  data_bytes = take r.length (drop r.offset value);
  actual_range = r;
  metadata = some metadata;
}

length-slice :
    (value : List ℕ) (r : Range)
    → r.offset + r.length ≤ length value
    → length (take r.length (drop r.offset value)) ≡ r.length
length-slice value r fits =
    omega (arith, length-take r.length (drop r.offset value), length-drop r.offset value)

get_elem?_past : {A : Type 0} (xs : List A) → get_elem? xs (length xs) ≡ none
get_elem?_past [] = refl
get_elem?_past (x ∷ xs) = get_elem?_past xs

count-split_value : (value : List ℕ) → length value ≤ length (split_value value) * chunk_size
count-split_value value =
    let n : ℕ = length (split_value value) in
    ground (arith, get_elem?_past (split_value value), get_elem?-split_value value n)

length-chunks_from : (k n : ℕ) (value : List ℕ) → length (chunks_from k n value) ≡ n
unfolding chunks_from
length-chunks_from k zero value = refl
length-chunks_from k (suc n) value = omega (arith, length-chunks_from (suc k) n value)

module _ {K ChunkId : Type 0} (dec_key : Discrete K) (d : Doubles) (dec : Discrete ChunkId)
    (content_id : List ℕ → ChunkId) (key_size : K → ℕ) where
  -- The descriptor that `put` makes of a value.
  abbrev pub stored_of : List ℕ → CacheMetadata → Stored ChunkId
  stored_of value metadata = record {
    desc = record {
      total_size = length value;
      chunks = ids_of d dec content_id (split_value value);
    };
    metadata = metadata;
  }

  assemble_result-slice :
      (s : MemoryCache K ChunkId d.Double) (x : Stored ChunkId) (value : List ℕ)
      (allow_partial : Bool)
      → (r : Range) (c : Cache ChunkId (List ℕ) d.Double) → 0 < r.length
      → r.offset + r.length ≤ length value
      → length value < u64_mod
      → (assemble_result dec_key d dec content_id key_size s x allow_partial r
          (c, true, chunks_from (r.offset / chunk_size) (touched r) value)).1
        ≡ slice_of value r x.metadata
  unfolding assemble_result
  assemble_result-slice s x value allow_partial r c pos fits small =
      let k : ℕ = r.offset / chunk_size in
      let some_chunk : (length (chunks_from k (touched r) value) == 0) ≡ false =
        ground (arith, length-chunks_from k (touched r) value) in
      let same = length-slice value r fits in
      let whole : (length (take r.length (drop r.offset value)) == r.length) ≡ true =
        ground (arith, same) in
      rw
        (
          some_chunk,
          assemble_value-chunks_from value r (touched r) small fits (omega arith),
          assemble_result,
          whole,
          same,
        )
        refl

  length-ids_of : (chunks : List (List ℕ)) → length (ids_of d dec content_id chunks) ≡ length chunks
  length-ids_of [] = refl
  length-ids_of (bytes ∷ chunks) = omega (arith, length-ids_of chunks)

  asked_chunks :
      (value : List ℕ) (metadata : CacheMetadata) (r : Range)
      → 0 < r.length
      → r.offset + r.length ≤ length value
      → length value < u64_mod
      → chunks_for_range (stored_of value metadata).desc r
        ≡ numbers_from (r.offset / chunk_size) (touched r)
  asked_chunks value metadata r pos fits small =
      chunks_for_range-numbers_from (stored_of value metadata).desc r pos fits small
        (omega (arith, length-ids_of (split_value value), count-split_value value))

  -- A read of a value whose descriptor has not expired and whose chunks are all in the cache, of a range
  -- that starts within it and is not empty: it is a hit, with the bytes of the range up to the value's
  -- end.
  pub get_slice :
      (s : MemoryCache K ChunkId d.Double) (now : ℕ) (key : K) (opts : ReadOptions)
      → (value : List ℕ) (metadata : CacheMetadata)
      → get_descriptor dec_key key s.descriptors ≡ some (stored_of value metadata)
      → is_expired now metadata ≡ false
      → IsValid d dec s.chunk_cache
      → IsResident d dec content_id value s.chunk_cache
      → length value < u64_mod
      → (asked opts value).offset < length value
      → 0 < (asked opts value).length
      → (get dec_key d dec content_id key_size s now key opts).1
        ≡ slice_of value (asked opts value) metadata
  unfolding get
  get_slice s now key opts value metadata found alive v held small inside pos =
      let r : Range = asked opts value in
      let fits : r.offset + r.length ≤ length value = omega arith in
      let within : leb (length value) r.offset ≡ false = ground arith in
      let (c, fetched) =
        fetch-chunks_from d dec content_id (touched r) (r.offset / chunk_size) value
          opts.allow_partial s.chunk_cache v held (inr (omega arith)) in
      rw (found, get, alive, within, asked_chunks value metadata r pos fits small, fetched)
        (assemble_result-slice s (stored_of value metadata) value opts.allow_partial r c pos fits
          small)
