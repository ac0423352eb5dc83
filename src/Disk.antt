-- ===== src/Disk.antt =====
-- `DiskCache` (include/elcache/disk_cache.hpp, src/cache/disk_cache.cpp): the files of chunks and descriptors,
-- and the index of them. The file system is a parameter, and so are the watermarks of the configuration, the
-- content hash and the bytes of keys and identifiers; the clock is an argument.
use el_cache.Common.{
  ℕ, zero, suc, ◌+◌, ◌-◌, ◌*◌, ◌/◌, min, Bool, true, false, not, ◌&&◌, ◌||◌, Option, none, some,
  List, [], ◌∷◌, ◌++◌, ltb, leb, ◌==◌, if◌then◌else◌, length, get_elem?, add64, sub64, ite,
  Completion, returned, threw,
}
use el_cache.Range.{Range, chunk_size}
use el_cache.Chunk.{
  Descriptor, PartialValue, read, chunks_for_range, of_descriptor, mark_chunk_available,
  available_ranges, missing_ranges,
}
use el_cache.Memory.{
  CacheMetadata, expires_at_of, is_expired, Stored, CacheResult, hit, miss, partial_hit, expired,
  ReadResult, missed, ReadOptions, AvailabilityResult, requested, split_value, ErrorCode, ok,
  key_too_large, not_found, disk_error, max_key_size, get_descriptor, put_descriptor,
  remove_descriptor,
}
use el_cache.Wire.{encode_u32, encode_u64}
pub mod Space
pub mod Twice
mod Tests

-- `chunk_path` and `descriptor_path`
pub data FilePath (K ChunkId : Type 0) : Type 0 where
  chunk_path : ChunkId → FilePath K ChunkId
  descriptor_path : K → FilePath K ChunkId

-- What `DiskStore` asks of the file system: the bytes of a file, none where it cannot be read; whether
-- a file was written; and whether one was deleted, where `std::filesystem::remove` does not throw.
pub record FileSystem (K ChunkId : Type 0) : Type 1 where
  pub Files : Type 0
  pub read_file : Files → FilePath K ChunkId → List ℕ
  pub write_file : Files → FilePath K ChunkId → List ℕ → Files × Bool
  pub delete_file : Files → FilePath K ChunkId → Files × Completion Bool

pub record AccessEntry (ChunkId : Type 0) : Type 0 where
  pub id : ChunkId
  pub last_access : ℕ
  pub size : ℕ

pub record DiskCache (Files K ChunkId : Type 0) : Type 0 where
  pub files : Files
  pub descriptors : List (K × Stored ChunkId)
  pub chunk_paths : List ChunkId
  pub access_order : List (AccessEntry ChunkId)
  pub hits : ℕ
  pub misses : ℕ
  pub bytes_read : ℕ
  pub bytes_written : ℕ
  pub evictions : ℕ
  pub current_size : ℕ

-- `access_order_.insert`: the entries stand in the order of their times, and a time that is there already is
-- not inserted.
unfoldable pub insert_access :
    {ChunkId : Type 0}
    → AccessEntry ChunkId
    → List (AccessEntry ChunkId)
    → List (AccessEntry ChunkId)
insert_access e [] = e ∷ []
insert_access e (x ∷ l) =
    if ltb e.last_access x.last_access
    then e ∷ x ∷ l
    else if x.last_access == e.last_access
    then x ∷ l
    else x ∷ insert_access e l

-- The loop of the assembly in `get`, at the chunk `index`; a chunk that is missing is passed over.
unfoldable pub assemble : ℕ → List (Option (List ℕ)) → ℕ → ℕ → List ℕ
assemble index [] current remaining = []
assemble index (none ∷ chunks) current remaining =
    let rest = assemble (suc index) chunks current remaining in if ltb 0 remaining then rest else []
assemble index (some bytes ∷ chunks) current remaining =
    let chunk_start : ℕ = index * chunk_size in
    let offset_in_chunk : ℕ = if ltb chunk_start current then current - chunk_start else 0 in
    let to_copy : ℕ = min remaining (sub64 (length bytes) offset_in_chunk) in
    let rest =
      read bytes offset_in_chunk to_copy
      ++ assemble (suc index) chunks (add64 current to_copy) (remaining - to_copy) in
    if ltb 0 remaining then rest else []

module _ {ChunkId : Type 0} (dec : Discrete ChunkId) where
  -- `chunk_paths_`, as the identifiers that it has.
  unfoldable pub has_chunk : ChunkId → List ChunkId → Bool
  has_chunk id [] = false
  has_chunk id (i ∷ l) = ite (dec i id) true (has_chunk id l)

  unfoldable pub erase_path : ChunkId → List ChunkId → List ChunkId
  erase_path id [] = []
  erase_path id (i ∷ l) = ite (dec i id) (erase_path id l) (i ∷ erase_path id l)

  -- The search of `remove_chunk`: the size of the first entry of the chunk, and the other entries.
  unfoldable pub take_access : ChunkId → List (AccessEntry ChunkId) → ℕ × List (AccessEntry ChunkId)
  take_access id [] = (0, [])
  take_access id (e ∷ l) =
      let rest = take_access id l in ite (dec e.id id) (e.size, l) (rest.0, e ∷ rest.1)

module _ {K ChunkId : Type 0} (dec_key : Discrete K) (dec : Discrete ChunkId)
    (fs : FileSystem K ChunkId) (content_id : List ℕ → ChunkId) (key_size : K → ℕ)
    (key_bytes : K → List ℕ) (id_bytes : ChunkId → List ℕ) where
  abbrev pub State : Type 0
  State = DiskCache fs.Files K ChunkId

  unfoldable pub get_chunk : State → ChunkId → Option (List ℕ)
  get_chunk s id = elim (fs.read_file s.files (chunk_path id)) [
    | [] ↦ none
    | b ∷ bytes ↦ some (b ∷ bytes)
  ]

  unfoldable pub put_chunk : State → ℕ → List ℕ → State × Bool
  put_chunk s now bytes =
      let id : ChunkId = content_id bytes in
      let (files, written) = fs.write_file s.files (chunk_path id) bytes in
      let entry : AccessEntry ChunkId = record {
        id = id;
        last_access = now;
        size = length bytes;
      } in
      (
        if written
            then record s {
              files = files;
              chunk_paths = id ∷ erase_path dec id s.chunk_paths;
              current_size = add64 s.current_size (length bytes);
              access_order = insert_access entry s.access_order;
            }
            else record s { files = files },
        written,
      )

  unfoldable pub remove_chunk : State → ChunkId → State × Completion Bool
  remove_chunk s id =
      let (files, deleted) = fs.delete_file s.files (chunk_path id) in
      let (size, order) = take_access dec id s.access_order in
      (
        if has_chunk dec id s.chunk_paths
            then record s {
              files = files;
              chunk_paths = erase_path dec id s.chunk_paths;
              current_size = sub64 s.current_size size;
              access_order = order;
            }
            else record s { files = files },
        deleted,
      )

  -- The loop of `remove`, up to an exception.
  unfoldable pub remove_chunks : State → List ChunkId → State × Completion (Unit {0})
  remove_chunks s [] = (s, returned tt)
  remove_chunks s (id ∷ ids) =
      let (s', ended) = remove_chunk s id in
      elim ended [ returned deleted ↦ remove_chunks s' ids | threw ↦ (s', threw) ]

  -- The entry that `evict` takes: the index first, then the file.
  unfoldable pub evict_entry :
      State → AccessEntry ChunkId → List (AccessEntry ChunkId) → State × Completion Bool
  evict_entry s e rest =
      let (files, ended) = fs.delete_file s.files (chunk_path e.id) in
      (
        record s {
          access_order = rest;
          chunk_paths = erase_path dec e.id s.chunk_paths;
          current_size = sub64 s.current_size e.size;
          evictions = add64 s.evictions 1;
          files = files;
        },
        ended,
      )

  -- The loop of `evict`, over the entries from the oldest on, up to an exception.
  unfoldable pub evict_loop : ℕ → ℕ → List (AccessEntry ChunkId) → State → ℕ → State × Completion ℕ
  evict_loop target bytes_needed [] s evicted = (s, returned evicted)
  evict_loop target bytes_needed (e ∷ l) s evicted =
      let (s', ended) = evict_entry s e l in
      let rest : State × Completion ℕ = elim ended [
        | returned deleted ↦ evict_loop target bytes_needed l s' (add64 evicted e.size)
        | threw ↦ (s', threw)
      ] in
      if ltb target s.current_size || ltb evicted bytes_needed then rest else (s, returned evicted)

  -- `target` is the part of the capacity below the low watermark.
  unfoldable pub evict : State → ℕ → ℕ → State × Completion ℕ
  evict s target bytes_needed = evict_loop target bytes_needed s.access_order s 0

  abbrev pub all_bytes : List ChunkId → List ℕ
  all_bytes [] = []
  all_bytes (id ∷ ids) = id_bytes id ++ all_bytes ids

  -- The file of a descriptor.
  unfoldable pub descriptor_bytes : K → Descriptor ChunkId → List ℕ
  descriptor_bytes key x =
      encode_u32 (key_size key)
      ++ (key_bytes key
          ++ (encode_u64 x.total_size ++ (encode_u64 (length x.chunks) ++ all_bytes x.chunks)))

  unfoldable pub store_descriptor : State → K → Stored ChunkId → State × Bool
  store_descriptor s key x =
      let (files, written) =
        fs.write_file s.files (descriptor_path key) (descriptor_bytes key x.desc) in
      (
        if written
            then record s {
              files = files;
              descriptors = put_descriptor dec_key key x s.descriptors;
            }
            else record s { files = files },
        written,
      )

  -- The loop over the chunks of a new value, at the times of `clock`, up to a failure.
  unfoldable pub put_chunks : State → (ℕ → ℕ) → ℕ → List (List ℕ) → State × Bool
  put_chunks s clock i [] = (s, true)
  put_chunks s clock i (bytes ∷ chunks) =
      let (s', written) = put_chunk s (clock i) bytes in
      let rest = put_chunks s' clock (suc i) chunks in if written then rest else (s', false)

  abbrev pub ids_of : List (List ℕ) → List ChunkId
  ids_of [] = []
  ids_of (bytes ∷ chunks) = content_id bytes ∷ ids_of chunks

  abbrev pub described : ℕ → List ℕ → Option ℕ → ℕ → Stored ChunkId
  described now value ttl flags =
      let chunks : List (List ℕ) = split_value value in
      record {
        desc = record { total_size = length value; chunks = ids_of chunks };
        metadata = record {
          total_size = length value;
          chunk_count = length chunks;
          created_at = now;
          last_accessed = now;
          expires_at = expires_at_of now ttl;
          flags = flags;
        };
      }

  -- `exceeds` is the comparison with the high watermark.
  unfoldable pub put :
      State
      → (ℕ → Bool)
      → ℕ
      → ℕ
      → (ℕ → ℕ)
      → K
      → List ℕ
      → Option ℕ
      → ℕ
      → State × Completion ErrorCode
  put s exceeds target now clock key value ttl flags =
      let (roomy, ended) : State × Completion ℕ =
        if exceeds (s.current_size + length value)
        then evict s target (length value)
        else (s, returned 0) in
      let (filled, written) = put_chunks roomy clock 0 (split_value value) in
      let (stored, described_too) = store_descriptor filled key (described now value ttl flags) in
      let answer : State × Completion ErrorCode =
        if not written
        then (filled, returned disk_error)
        else if not described_too
        then (stored, returned disk_error)
        else (
          record stored { bytes_written = add64 stored.bytes_written (length value) },
          returned ok,
        ) in
      if ltb max_key_size (key_size key)
      then (s, returned key_too_large)
      else elim ended [ returned evicted ↦ answer | threw ↦ (roomy, threw) ]

  unfoldable pub remove : State → K → State × Completion ErrorCode
  remove s key = elim (get_descriptor dec_key key s.descriptors) [
    | none ↦ (s, returned not_found)
    | some x ↦
        let (s', removed) = remove_chunks s x.desc.chunks in
        let (files, ended) = fs.delete_file s'.files (descriptor_path key) in
        let s'' : State = record s' {
          descriptors = remove_descriptor dec_key key s'.descriptors;
          files = files;
        } in
        elim removed [
          | threw ↦ (s', threw)
          | returned u ↦ elim ended [ threw ↦ (s'', threw) | returned deleted ↦ (s'', returned ok) ]
        ]
  ]

  -- The loop that reads the chunks of `get`: whether all were found, and the chunks up to the break; a
  -- chunk that is missing is kept as such in a partial read.
  unfoldable pub fetch : Bool → List ChunkId → List ℕ → State → Bool × List (Option (List ℕ))
  fetch allow_partial ids [] s = (true, [])
  fetch allow_partial ids (i ∷ is) s = elim (get_elem? ids i) [
    | none ↦ (false, [])
    | some id ↦
        let (all_found, chunks) = fetch allow_partial ids is s in
        elim (get_chunk s id) [
          | some bytes ↦ (all_found, some bytes ∷ chunks)
          | none ↦ if allow_partial then (false, none ∷ chunks) else (false, [])
        ]
  ]

  unfoldable pub assemble_result :
      State → Stored ChunkId → Bool → Range → Bool × List (Option (List ℕ)) → State × ReadResult
  assemble_result s x allow_partial range (all_found, chunks) =
      let bytes : List ℕ = assemble (range.offset / chunk_size) chunks range.offset range.length in
      let answer : CacheResult → ReadResult = λ r. record {
        result = r;
        data_bytes = bytes;
        actual_range = record { offset = range.offset; length = length bytes };
        metadata = some x.metadata;
      } in
      let read_bytes : ℕ = add64 s.bytes_read (length bytes) in
      if (length chunks == 0) || (not all_found && not allow_partial)
      then (record s { misses = add64 s.misses 1 }, missed miss)
      else if all_found && (length bytes == range.length)
      then (record s { hits = add64 s.hits 1; bytes_read = read_bytes }, answer hit)
      else (record s { bytes_read = read_bytes }, answer partial_hit)

  unfoldable pub get : State → ℕ → K → ReadOptions → State × ReadResult
  get s now key opts = elim (get_descriptor dec_key key s.descriptors) [
    | none ↦ (record s { misses = add64 s.misses 1 }, missed miss)
    | some x ↦
        let total_size : ℕ = x.desc.total_size in
        let range : Range = requested opts.range total_size in
        let clamped : Range = record {
          offset = range.offset;
          length = min range.length (total_size - range.offset);
        } in
        if is_expired now x.metadata
        then (record s { misses = add64 s.misses 1 }, missed expired)
        else if leb total_size range.offset
        then (
          s,
          record {
            result = hit;
            data_bytes = [];
            actual_range = record { offset = range.offset; length = 0 };
            metadata = some x.metadata;
          },
        )
        else assemble_result s x opts.allow_partial clamped
            (fetch opts.allow_partial x.desc.chunks (chunks_for_range x.desc clamped) s)
  ]

  unfoldable pub mark_found :
      State → List ChunkId → List ℕ → PartialValue ChunkId → PartialValue ChunkId
  mark_found s ids [] p = p
  mark_found s ids (i ∷ is) p = elim (get_elem? ids i) [
    | none ↦ mark_found s ids is p
    | some id ↦
        mark_found s ids is
          (if has_chunk dec id s.chunk_paths then mark_chunk_available p i id else p)
  ]

  unfoldable pub check : State → K → Option Range → Option AvailabilityResult
  check s key given = elim (get_descriptor dec_key key s.descriptors) [
    | none ↦ none
    | some x ↦
        let range : Range = requested given x.desc.total_size in
        let p = mark_found s x.desc.chunks (chunks_for_range x.desc range) (of_descriptor x.desc) in
        some (record {
          metadata = x.metadata;
          available = available_ranges p;
          missing = missing_ranges p range;
        })
  ]
