-- ===== src/Memory.antt =====
-- `MemoryCache` (include/elcache/memory_cache.hpp, src/cache/memory_cache.cpp): values in chunks, the
-- chunks in an ARC cache under their content hash. A coroutine runs as one step. The content hash, the
-- equality and the size of keys, and `double` are parameters; the clock is an argument.
use el_cache.Common.{
  ℕ, zero, suc, ◌+◌, ◌-◌, ◌*◌, ◌/◌, ◌%◌, ◌^◌, Bool, true, false, not, ◌&&◌, ◌||◌, Option, none,
  some, List, [], ◌∷◌, ◌++◌, ltb, leb, ◌==◌, if◌then◌else◌, add64, sub64, length, take, drop,
  get_elem?, min, ite,
}
use el_cache.Range.{Range, chunk_size}
use el_cache.Arc.{Doubles, Cache}
use el_cache.Arc
use el_cache.Chunk.{
  Descriptor, PartialValue, read, chunks_for_range, of_descriptor, mark_chunk_available,
  available_ranges, missing_ranges,
}
pub mod Split
pub mod Assemble
pub mod Fetch
pub mod Get
pub mod PutGet
pub mod Remove
mod Tests

-- The loop of `split_value` from `offset`.
unfoldable pub split_loop : ℕ → ℕ → List ℕ → List (List ℕ)
split_loop zero offset value = []
split_loop (suc fuel) offset value =
    let size : ℕ = min chunk_size (length value - offset) in
    let rest = take size (drop offset value) ∷ split_loop fuel (offset + size) value in
    if ltb offset (length value) then rest else []

-- A round takes a byte at least, so the number of bytes is fuel enough.
unfoldable pub split_value : List ℕ → List (List ℕ)
unfolding split_loop
split_value value = split_loop (length value) 0 value

-- The loop of `assemble_value` from chunk `index`, which is `start_chunk + i`.
unfoldable pub assemble_loop : ℕ → List (Option (List ℕ)) → ℕ → ℕ → List ℕ
assemble_loop index [] current_offset remaining = []
assemble_loop index (none ∷ chunks) current_offset remaining =
    let skip : ℕ = min remaining chunk_size in
    let rest = assemble_loop (suc index) chunks (add64 current_offset skip) (remaining - skip) in
    if ltb 0 remaining then rest else []
assemble_loop index (some bytes ∷ chunks) current_offset remaining =
    let global_offset : ℕ = index * chunk_size in
    let offset_in_chunk : ℕ =
      if ltb global_offset current_offset then current_offset - global_offset else 0 in
    let available : ℕ = sub64 (length bytes) offset_in_chunk in
    let to_copy : ℕ = min remaining available in
    let rest =
      read bytes offset_in_chunk to_copy
      ++ assemble_loop (suc index) chunks (add64 current_offset to_copy) (remaining - to_copy) in
    if ltb 0 remaining then rest else []

unfoldable pub assemble_value : List (Option (List ℕ)) → Range → List ℕ
unfolding assemble_loop
assemble_value chunks range =
    assemble_loop (range.offset / chunk_size) chunks range.offset range.length

-- A time is an `int64_t` of nanoseconds, a lifetime one of seconds, both as their 64-bit words. The
-- lifetime is multiplied to nanoseconds and added, which wraps in two's complement.
unfoldable pub expiry : ℕ → ℕ → ℕ
expiry created_at ttl = (created_at + ttl * 10 ^ 9) % 2 ^ 64

unfoldable pub expires_at_of : ℕ → Option ℕ → Option ℕ
unfolding expiry
expires_at_of created_at none = none
expires_at_of created_at (some ttl) = some (expiry created_at ttl)

-- The order of two times, as numbers with a sign.
unfoldable pub leb_time : ℕ → ℕ → Bool
leb_time a b = leb ((a + 2 ^ 63) % 2 ^ 64) ((b + 2 ^ 63) % 2 ^ 64)

-- The fields of `CacheMetadata`.
pub record CacheMetadata : Type 0 where
  pub total_size : ℕ
  pub chunk_count : ℕ
  pub created_at : ℕ
  pub last_accessed : ℕ
  pub expires_at : Option ℕ
  pub flags : ℕ

abbrev pub is_expired : ℕ → CacheMetadata → Bool
is_expired now m = elim m.expires_at [ none ↦ false | some t ↦ leb_time t now ]

-- `ValueDescriptor`: the size and the chunks, and the metadata.
pub record Stored (ChunkId : Type 0) : Type 0 where
  pub desc : Descriptor ChunkId
  pub metadata : CacheMetadata

pub record MemoryCache (K ChunkId P : Type 0) : Type 0 where
  pub chunk_cache : Cache ChunkId (List ℕ) P
  pub descriptors : List (K × Stored ChunkId)
  pub hits : ℕ
  pub misses : ℕ
  pub partial_hits : ℕ
  pub bytes_read : ℕ
  pub bytes_written : ℕ
  pub evictions : ℕ

pub data CacheResult : Type 0 where
  hit : CacheResult
  miss : CacheResult
  partial_hit : CacheResult
  error_result : CacheResult
  expired : CacheResult
  not_found_result : CacheResult

pub record ReadResult : Type 0 where
  pub result : CacheResult
  pub data_bytes : List ℕ
  pub actual_range : Range
  pub metadata : Option CacheMetadata

-- A `Status` without its message.
pub data ErrorCode : Type 0 where
  ok : ErrorCode
  key_too_large : ErrorCode
  value_too_large : ErrorCode
  not_found : ErrorCode
  partial_data : ErrorCode
  network_error : ErrorCode
  disk_error : ErrorCode
  timeout : ErrorCode
  invalid_argument : ErrorCode
  out_of_memory : ErrorCode
  internal_error : ErrorCode

abbrev pub max_key_size : ℕ
max_key_size = 8 * 1024

abbrev pub max_value_size : ℕ
max_value_size = 20 * 1024 * 1024 * 1024 * 1024

module _ {K : Type 0} (dec_key : Discrete K) where
  unfoldable pub get_descriptor :
      {ChunkId : Type 0} → K → List (K × Stored ChunkId) → Option (Stored ChunkId)
  get_descriptor key [] = none
  get_descriptor key ((k, x) ∷ l) = ite (dec_key k key) (some x) (get_descriptor key l)

  unfoldable pub remove_descriptor :
      {ChunkId : Type 0} → K → List (K × Stored ChunkId) → List (K × Stored ChunkId)
  remove_descriptor key [] = []
  remove_descriptor key ((k, x) ∷ l) =
      ite (dec_key k key) (remove_descriptor key l) ((k, x) ∷ remove_descriptor key l)

  unfoldable pub put_descriptor :
      {ChunkId : Type 0}
      → K
      → Stored ChunkId
      → List (K × Stored ChunkId)
      → List (K × Stored ChunkId)
  put_descriptor key x l = (key, x) ∷ remove_descriptor key l

module _ {ChunkId : Type 0} (d : Doubles) (dec : Discrete ChunkId)
    (content_id : List ℕ → ChunkId) where
  -- The loop over the chunks of a new value, with the number of evicted chunks.
  unfoldable pub put_chunks :
      Cache ChunkId (List ℕ) d.Double → List (List ℕ) → Cache ChunkId (List ℕ) d.Double × ℕ
  put_chunks c [] = (c, 0)
  put_chunks c (bytes ∷ chunks) =
      let (c', evicted) = Arc.put d dec length c (content_id bytes) bytes in
      let (c'', n) = put_chunks c' chunks in (c'', length evicted + n)

  abbrev pub ids_of : List (List ℕ) → List ChunkId
  ids_of [] = []
  ids_of (bytes ∷ chunks) = content_id bytes ∷ ids_of chunks

  -- The loop over the chunks of a removed value.
  unfoldable pub remove_chunks :
      Cache ChunkId (List ℕ) d.Double → List ChunkId → Cache ChunkId (List ℕ) d.Double
  remove_chunks c [] = c
  remove_chunks c (id ∷ ids) = remove_chunks (Arc.remove d dec c id).0 ids

  -- The loop that fetches chunks: whether all were found, and the chunks up to the break.
  unfoldable pub fetch :
      Bool
      → List ChunkId
      → List ℕ
      → Cache ChunkId (List ℕ) d.Double
      → Cache ChunkId (List ℕ) d.Double × Bool × List (Option (List ℕ))
  fetch allow_partial ids [] c = (c, true, [])
  fetch allow_partial ids (i ∷ is) c = elim (get_elem? ids i) [
    | none ↦ (c, false, [])
    | some id ↦
        let (c', chunk) = Arc.get d dec c id in
        let (c'', all_found, chunks) = fetch allow_partial ids is c' in
        elim chunk [
          | some bytes ↦ (c'', all_found, some bytes ∷ chunks)
          | none ↦ if allow_partial then (c'', false, none ∷ chunks) else (c', false, [])
        ]
  ]

  -- The chunks that are there are marked.
  unfoldable pub mark_found :
      Cache ChunkId (List ℕ) d.Double
      → List ChunkId
      → List ℕ
      → PartialValue ChunkId
      → PartialValue ChunkId
  mark_found c ids [] p = p
  mark_found c ids (i ∷ is) p = elim (get_elem? ids i) [
    | none ↦ mark_found c ids is p
    | some id ↦
        mark_found c ids is (if Arc.contains d dec c id then mark_chunk_available p i id else p)
  ]

-- `ReadOptions`, as far as `get` reads them.
pub record ReadOptions : Type 0 where
  pub allow_partial : Bool
  pub range : Option Range

-- `AvailabilityResult` of a key that exists.
pub record AvailabilityResult : Type 0 where
  pub metadata : CacheMetadata
  pub available : List Range
  pub missing : Option (List Range)

-- The given range, or the whole value.
unfoldable pub requested : Option Range → ℕ → Range
requested none total_size = record { offset = 0; length = total_size }
requested (some r) total_size = r

abbrev pub no_range : Range
no_range = record { offset = 0; length = 0 }

abbrev pub missed : CacheResult → ReadResult
missed r = record { result = r; data_bytes = []; actual_range = no_range; metadata = none }

module _ {K ChunkId : Type 0} (dec_key : Discrete K) (d : Doubles) (dec : Discrete ChunkId)
    (content_id : List ℕ → ChunkId) (key_size : K → ℕ) where
  -- `put`, with the time, the flags and the lifetime.
  unfoldable pub put :
      MemoryCache K ChunkId d.Double
      → ℕ
      → K
      → List ℕ
      → Option ℕ
      → ℕ
      → MemoryCache K ChunkId d.Double × ErrorCode
  put s now key value ttl flags =
      if ltb max_key_size (key_size key)
      then (s, key_too_large)
      else if ltb max_value_size (length value)
      then (s, value_too_large)
      else let chunks : List (List ℕ) = split_value value in
        let (cache, evicted) = put_chunks d dec content_id s.chunk_cache chunks in
        let metadata : CacheMetadata = record {
          total_size = length value;
          chunk_count = length chunks;
          created_at = now;
          last_accessed = now;
          expires_at = expires_at_of now ttl;
          flags = flags;
        } in
        let stored : Stored ChunkId = record {
          desc = record { total_size = length value; chunks = ids_of d dec content_id chunks };
          metadata = metadata;
        } in
        (
          record s {
            chunk_cache = cache;
            descriptors = put_descriptor dec_key key stored s.descriptors;
            bytes_written = add64 s.bytes_written (length value);
            evictions = add64 s.evictions evicted;
          },
          ok,
        )

  unfoldable pub remove :
      MemoryCache K ChunkId d.Double → K → MemoryCache K ChunkId d.Double × ErrorCode
  remove s key = elim (get_descriptor dec_key key s.descriptors) [
    | none ↦ (s, not_found)
    | some x ↦ (
      record s {
        chunk_cache = remove_chunks d dec content_id s.chunk_cache x.desc.chunks;
        descriptors = remove_descriptor dec_key key s.descriptors;
      },
      ok,
    )
  ]

  -- `get` from the chunks on: the result from what the loop fetched.
  unfoldable pub assemble_result :
      MemoryCache K ChunkId d.Double
      → Stored ChunkId
      → Bool
      → Range
      → Cache ChunkId (List ℕ) d.Double × Bool × List (Option (List ℕ))
      → MemoryCache K ChunkId d.Double × ReadResult
  assemble_result s x allow_partial range (cache, all_found, chunks) =
      let bytes : List ℕ = assemble_value chunks range in
      let answer : CacheResult → ReadResult = λ r. record {
        result = r;
        data_bytes = bytes;
        actual_range = record { offset = range.offset; length = length bytes };
        metadata = some x.metadata;
      } in
      let read_bytes : ℕ = add64 s.bytes_read (length bytes) in
      if (length chunks == 0) || (not all_found && not allow_partial)
      then (record s { chunk_cache = cache; misses = add64 s.misses 1 }, missed miss)
      else if all_found && (length bytes == range.length)
      then (
        record s { chunk_cache = cache; hits = add64 s.hits 1; bytes_read = read_bytes },
        answer hit,
      )
      else (
        record s {
          chunk_cache = cache;
          partial_hits = add64 s.partial_hits 1;
          bytes_read = read_bytes;
        },
        answer partial_hit,
      )

  unfoldable pub get :
      MemoryCache K ChunkId d.Double
      → ℕ
      → K
      → ReadOptions
      → MemoryCache K ChunkId d.Double × ReadResult
  get s now key opts = elim (get_descriptor dec_key key s.descriptors) [
    | none ↦ (record s { misses = add64 s.misses 1 }, missed miss)
    | some x ↦
        let total_size : ℕ = x.desc.total_size in
        let range : Range = requested opts.range total_size in
        let clamped : Range = record {
          offset = range.offset;
          length = min range.length (total_size - range.offset);
        } in
        if is_expired now x.metadata
        then (record s { misses = add64 s.misses 1 }, missed expired)
        else if leb total_size range.offset
        then (
          s,
          record {
            result = hit;
            data_bytes = [];
            actual_range = record { offset = range.offset; length = 0 };
            metadata = some x.metadata;
          },
        )
        else assemble_result s x opts.allow_partial clamped (
            fetch d dec content_id opts.allow_partial x.desc.chunks
              (chunks_for_range x.desc clamped) s.chunk_cache)
  ]

  -- `check`; `none` in the missing ranges means that their loop ran out of fuel.
  unfoldable pub check :
      MemoryCache K ChunkId d.Double → K → Option Range → Option AvailabilityResult
  check s key range = elim (get_descriptor dec_key key s.descriptors) [
    | none ↦ none
    | some x ↦
        let check_range : Range = requested range x.desc.total_size in
        let partial : PartialValue ChunkId =
          mark_found d dec content_id s.chunk_cache x.desc.chunks
            (chunks_for_range x.desc check_range) (of_descriptor x.desc) in
        some (record {
          metadata = x.metadata;
          available = available_ranges partial;
          missing = missing_ranges partial check_range;
        })
  ]

  unfoldable pub stop : MemoryCache K ChunkId d.Double → MemoryCache K ChunkId d.Double
  stop s = record s { chunk_cache = Arc.clear d s.chunk_cache; descriptors = [] }
