-- ===== src/Memory/PutGet.antt =====
-- `MemoryCache::put` and then `MemoryCache::get`.
use el_cache.Common.{
  ℕ, ◌+◌, ◌*◌, ◌^◌, ◌≡◌, ◌≤◌, ◌<◌, refl, true, false, Option, none, some, List, [], ◌∷◌, arith, ltb,
  length, get_elem?,
}
use el_cache.Range.{chunk_size}
use el_cache.Arc.{Doubles, Cache}
use el_cache.Arc
use el_cache.Arc.Invariant.{IsValid}
use el_cache.Arc.Put.{put-IsValid}
use el_cache.Arc.Store.{put-lookup}
use el_cache.Memory.Split.{chunk_at, get_elem?-split_value}
use el_cache.Memory.Fetch.{IsResident}
use el_cache.Memory.Get.{asked, slice_of, stored_of, get_slice}
use el_cache.Memory.{
  split_value, put_chunks, put_descriptor, get_descriptor, MemoryCache, Stored, CacheMetadata,
  ReadOptions, ok, expires_at_of, expiry, leb_time, is_expired, get, put, max_key_size,
  max_value_size,
}

-- The metadata that `put` makes.
abbrev pub metadata_of : ℕ → List ℕ → Option ℕ → ℕ → CacheMetadata
metadata_of now value ttl flags = record {
  total_size = length value;
  chunk_count = length (split_value value);
  created_at = now;
  last_accessed = now;
  expires_at = expires_at_of now ttl;
  flags = flags;
}

-- The lifetime, if there is one, ends at a time that the clock can hold, and has not passed at a later time.
abbrev pub Alive : ℕ → Option ℕ → ℕ → Type 0
Alive now none later = Unit {0}
Alive now (some ttl) later = (later < now + ttl * 10 ^ 9) × (now + ttl * 10 ^ 9 < 2 ^ 63)

Alive-is_expired :
    (now : ℕ) (value : List ℕ) (ttl : Option ℕ) (flags later : ℕ)
    → Alive now ttl later
    → is_expired later (metadata_of now value ttl flags) ≡ false
unfolding expires_at_of expiry leb_time
Alive-is_expired now value none flags later h = refl
Alive-is_expired now value (some ttl) flags later h = ground arith

module _ {K : Type 0} (dec_key : Discrete K) where
  get_descriptor-put_descriptor_self :
      {ChunkId : Type 0} (key : K) (x : Stored ChunkId) (l : List (K × Stored ChunkId))
      → get_descriptor dec_key key (put_descriptor dec_key key x l) ≡ some x
  unfolding put_descriptor get_descriptor
  get_descriptor-put_descriptor_self key x l = ground arith

module _ {ChunkId : Type 0} (d : Doubles) (dec : Discrete ChunkId)
    (content_id : List ℕ → ChunkId) where
  put_chunks-IsValid :
      (chunks : List (List ℕ)) (c : Cache ChunkId (List ℕ) d.Double)
      → IsValid d dec c
      → IsValid d dec (put_chunks d dec content_id c chunks).0
  unfolding put_chunks
  put_chunks-IsValid [] c v = v
  put_chunks-IsValid (bytes ∷ chunks) c v =
      put_chunks-IsValid chunks (Arc.put d dec length c (content_id bytes) bytes).0
        (put-IsValid d dec length c (content_id bytes) bytes v)

module _ {K ChunkId : Type 0} (dec_key : Discrete K) (d : Doubles) (dec : Discrete ChunkId)
    (content_id : List ℕ → ChunkId) (key_size : K → ℕ) where
  -- What `put` leaves for a key and a value of allowed sizes.
  pub put_stores :
      (s : MemoryCache K ChunkId d.Double) (now : ℕ) (key : K) (value : List ℕ) (ttl : Option ℕ)
      (flags : ℕ)
      → key_size key ≤ max_key_size
      → length value ≤ max_value_size
      → ((put dec_key d dec content_id key_size s now key value ttl flags).1 ≡ ok)
        × (get_descriptor dec_key key
              (put dec_key d dec content_id key_size s now key value ttl flags).0.descriptors
            ≡ some (
                stored_of dec_key d dec content_id key_size value
                  (metadata_of now value ttl flags)))
        × ((put dec_key d dec content_id key_size s now key value ttl flags).0.chunk_cache
            ≡ (put_chunks d dec content_id s.chunk_cache (split_value value)).0)
  unfolding put
  put_stores s now key value ttl flags hk hv =
      let a : ltb max_key_size (key_size key) ≡ false = ground arith in
      let b : ltb max_value_size (length value) ≡ false = ground arith in
      rw (a, put, b) (refl, get_descriptor-put_descriptor_self dec_key key _ s.descriptors, refl)

  pub put-IsValid_cache :
      (s : MemoryCache K ChunkId d.Double) (now : ℕ) (key : K) (value : List ℕ) (ttl : Option ℕ)
      (flags : ℕ)
      → key_size key ≤ max_key_size
      → length value ≤ max_value_size
      → IsValid d dec s.chunk_cache
      → IsValid d dec
          (put dec_key d dec content_id key_size s now key value ttl flags).0.chunk_cache
  put-IsValid_cache s now key value ttl flags hk hv v =
      let (stored, found, cache) = put_stores s now key value ttl flags hk hv in
      rw cache (put_chunks-IsValid d dec content_id (split_value value) s.chunk_cache v)

  -- After `put` of a value of allowed sizes under a key of an allowed size, on a valid cache, none of whose
  -- chunks was evicted again: a read within the lifetime, whose end the clock's `int64_t` of nanoseconds can
  -- hold, of a range that starts within the value and is not empty, is a hit with the bytes of the range up
  -- to the value's end.
  pub get-put :
      (s : MemoryCache K ChunkId d.Double) (now : ℕ) (key : K) (value : List ℕ) (ttl : Option ℕ)
      (flags : ℕ)
      → (later : ℕ) (opts : ReadOptions) → key_size key ≤ max_key_size
      → length value ≤ max_value_size
      → IsValid d dec s.chunk_cache
      → IsResident d dec content_id value
          (put dec_key d dec content_id key_size s now key value ttl flags).0.chunk_cache
      → Alive now ttl later
      → (asked opts value).offset < length value
      → 0 < (asked opts value).length
      → (get dec_key d dec content_id key_size
          (put dec_key d dec content_id key_size s now key value ttl flags).0
          later
          key
          opts).1
        ≡ slice_of value (asked opts value) (metadata_of now value ttl flags)
  get-put s now key value ttl flags later opts hk hv v held alive inside pos =
      let (stored, found, cache) = put_stores s now key value ttl flags hk hv in
      get_slice dec_key d dec content_id key_size
        (put dec_key d dec content_id key_size s now key value ttl flags).0 later key opts value
        (metadata_of now value ttl flags) found (Alive-is_expired now value ttl flags later alive)
        (put-IsValid_cache s now key value ttl flags hk hv v) held (omega arith) inside pos

  one_chunk :
      (l : List (List ℕ)) (bytes : List ℕ)
      → get_elem? l 0 ≡ some bytes
      → get_elem? l 1 ≡ none
      → l ≡ bytes ∷ []
  one_chunk [] bytes h h' = absurd (ground arith)
  one_chunk (x ∷ []) bytes h h' = ground arith
  one_chunk (x ∷ y ∷ l) bytes h h' = absurd (ground arith)

  pub small-IsResident :
      (s : MemoryCache K ChunkId d.Double) (now : ℕ) (key : K) (value : List ℕ) (ttl : Option ℕ)
      (flags : ℕ)
      → key_size key ≤ max_key_size
      → 0 < length value
      → length value ≤ chunk_size
      → IsValid d dec s.chunk_cache
      → IsResident d dec content_id value
          (put dec_key d dec content_id key_size s now key value ttl flags).0.chunk_cache
  unfolding put_chunks
  small-IsResident s now key value ttl flags hk pos small v =
      let bytes : List ℕ = chunk_at 0 value in
      let more : ltb (0 * chunk_size) (length value) ≡ true = ground arith in
      let over : ltb (1 * chunk_size) (length value) ≡ false = ground arith in
      let one =
        one_chunk (split_value value) bytes (rw (get_elem?-split_value value 0, more) refl)
          (rw (get_elem?-split_value value 1, over) refl) in
      let (stored, found, cache) = put_stores s now key value ttl flags hk (omega arith) in
      record {
        held = λ k inside.
            let e : k ≡ 0 = omega arith in
            rw (e, cache, one)
              ((put-lookup d dec length s.chunk_cache (content_id bytes) bytes v).0);
      }

  -- After `put` of a value of at most one chunk under a key of an allowed size, on a valid cache: a read
  -- within the lifetime, whose end the clock can hold, of a range
  -- that starts within the value and is not empty, is a hit with the bytes of the range up to the value's
  -- end, whatever the capacity is.
  pub get-put_small :
      (s : MemoryCache K ChunkId d.Double) (now : ℕ) (key : K) (value : List ℕ) (ttl : Option ℕ)
      (flags : ℕ)
      → (later : ℕ) (opts : ReadOptions) → key_size key ≤ max_key_size
      → length value ≤ chunk_size
      → IsValid d dec s.chunk_cache
      → Alive now ttl later
      → (asked opts value).offset < length value
      → 0 < (asked opts value).length
      → (get dec_key d dec content_id key_size
          (put dec_key d dec content_id key_size s now key value ttl flags).0
          later
          key
          opts).1
        ≡ slice_of value (asked opts value) (metadata_of now value ttl flags)
  get-put_small s now key value ttl flags later opts hk small v alive inside pos =
      get-put s now key value ttl flags later opts hk (omega arith) v
        (small-IsResident s now key value ttl flags hk (omega arith) small v) alive inside pos
