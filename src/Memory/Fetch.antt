-- ===== src/Memory/Fetch.antt =====
-- The chunks that `MemoryCache::get` asks for and finds.
use el_cache.Common.{
  ℕ, zero, suc, ◌+◌, ◌-◌, ◌*◌, ◌/◌, ◌%◌, ◌≡◌, ◌≤◌, ◌<◌, refl, ◌∙◌, ◌⊎◌, Bool, true, false, ◌&&◌,
  ◌||◌, ◌==◌, Option, some, List, [], ◌∷◌, arith, inl, inr, ltb, leb, length, get_elem?, min,
  u64_mod,
}
use el_cache.Range.{Range, chunk_size}
use el_cache.Arc.{Doubles, Cache}
use el_cache.Arc
use el_cache.Arc.Invariant.{IsValid, get-IsValid}
use el_cache.Arc.Reads.{lookup, get-lookup}
use el_cache.Chunk.{Descriptor, indices, chunks_for_range}
use el_cache.Memory.Split.{chunk_at, get_elem?-split_value}
use el_cache.Memory.Assemble.{chunks_from}
use el_cache.Memory.{split_value, ids_of, fetch}

-- `n` numbers from `k` on.
unfoldable pub numbers_from : ℕ → ℕ → List ℕ
numbers_from k zero = []
numbers_from k (suc n) = k ∷ numbers_from (suc k) n

indices-numbers_from :
    (fuel i n stop count : ℕ)
    → i + n ≡ suc stop
    → stop < count
    → n ≤ fuel
    → indices fuel i stop count ≡ numbers_from i n
unfolding indices numbers_from
indices-numbers_from zero i zero stop count e low enough = refl
indices-numbers_from zero i (suc n) stop count e low enough = absurd (omega arith)
indices-numbers_from (suc fuel) i zero stop count e low enough =
    let over : (leb i stop && ltb i count) ≡ false = ground arith in rw (over, indices) refl
indices-numbers_from (suc fuel) i (suc n) stop count e low enough =
    let more : (leb i stop && ltb i count) ≡ true = ground arith in
    rw
      (
        more,
        indices,
        indices-numbers_from fuel (suc i) n stop count (omega arith) low (omega arith),
      )
      refl

-- The number of chunks that a range within a value touches.
abbrev pub touched : Range → ℕ
touched r = suc ((r.offset + r.length - 1) / chunk_size) - r.offset / chunk_size

pub chunks_for_range-numbers_from :
    {ChunkId : Type 0} (desc : Descriptor ChunkId) (r : Range)
    → 0 < r.length
    → r.offset + r.length ≤ desc.total_size
    → desc.total_size < u64_mod
    → desc.total_size ≤ length desc.chunks * chunk_size
    → chunks_for_range desc r ≡ numbers_from (r.offset / chunk_size) (touched r)
unfolding chunks_for_range
chunks_for_range-numbers_from desc r pos fits small enough =
    let inside : ((r.length == 0) || leb desc.total_size r.offset) ≡ false = ground arith in
    let stop : min ((r.offset + r.length) % u64_mod) desc.total_size ≡ r.offset + r.length =
      omega arith in
    let nonzero : ltb 0 (r.offset + r.length) ≡ true = ground arith in
    rw (inside, chunks_for_range, stop, nonzero)
      (indices-numbers_from (length desc.chunks) (r.offset / chunk_size) (touched r)
        ((r.offset + r.length - 1) / chunk_size) (length desc.chunks) (omega arith) (omega arith)
        (omega arith))

module _ {ChunkId : Type 0} (d : Doubles) (dec : Discrete ChunkId)
    (content_id : List ℕ → ChunkId) where
  get_elem?-ids_of :
      (chunks : List (List ℕ)) (k : ℕ) (bytes : List ℕ)
      → get_elem? chunks k ≡ some bytes
      → get_elem? (ids_of d dec content_id chunks) k ≡ some (content_id bytes)
  get_elem?-ids_of [] k bytes h = absurd (ground arith)
  get_elem?-ids_of (x ∷ chunks) zero bytes h = ground arith
  get_elem?-ids_of (x ∷ chunks) (suc k) bytes h = get_elem?-ids_of chunks k bytes h

  pub get_elem?-ids_of_chunk :
      (value : List ℕ) (k : ℕ)
      → k * chunk_size < length value
      → get_elem? (ids_of d dec content_id (split_value value)) k
        ≡ some (content_id (chunk_at k value))
  get_elem?-ids_of_chunk value k h =
      get_elem?-ids_of (split_value value) k (chunk_at k value)
        (ground (arith, get_elem?-split_value value k))

  -- Every chunk of a value is in the cache, under its content hash.
  pub record IsResident (value : List ℕ) (c : Cache ChunkId (List ℕ) d.Double) : Type 0 where
    pub held :
        (k : ℕ)
        → k * chunk_size < length value
        → lookup dec (content_id (chunk_at k value)) c ≡ some (chunk_at k value)

  get-IsResident :
      (value : List ℕ) (c : Cache ChunkId (List ℕ) d.Double) (id : ChunkId)
      → IsValid d dec c
      → IsResident value c
      → IsResident value (Arc.get d dec c id).0
  get-IsResident value c id v h = record {
    held = λ k inside.
        rw ((get-lookup d dec c id v).1 (content_id (chunk_at k value))) (h.held k inside);
  }

  fetch_step :
      (allow_partial : Bool) (ids : List ChunkId) (k : ℕ) (is : List ℕ)
      (c : Cache ChunkId (List ℕ) d.Double)
      → (bytes : List ℕ) (id : ChunkId) → get_elem? ids k ≡ some id
      → (Arc.get d dec c id).1 ≡ some bytes
      → (c'' : Cache ChunkId (List ℕ) d.Double) (chunks : List (Option (List ℕ)))
      → fetch d dec content_id allow_partial ids is (Arc.get d dec c id).0 ≡ (c'', true, chunks)
      → fetch d dec content_id allow_partial ids (k ∷ is) c ≡ (c'', true, some bytes ∷ chunks)
  unfolding fetch
  fetch_step allow_partial ids k is c bytes id e found c'' chunks rest =
      rw (e, fetch, found, rest) refl

  -- All chunks of a resident value that are asked for are found.
  pub fetch-chunks_from :
      (n k : ℕ) (value : List ℕ) (allow_partial : Bool) (c : Cache ChunkId (List ℕ) d.Double)
      → IsValid d dec c
      → IsResident value c
      → (n ≡ 0) ⊎ ((k + n - 1) * chunk_size < length value)
      → (c' : Cache ChunkId (List ℕ) d.Double) × (fetch d dec content_id allow_partial
            (ids_of d dec content_id (split_value value))
            (numbers_from k n)
            c
          ≡ (c', true, chunks_from k n value))
  unfolding numbers_from chunks_from fetch
  fetch-chunks_from zero k value allow_partial c v h inside = (c, refl)
  fetch-chunks_from (suc n) k value allow_partial c v h (inl e) = absurd (omega arith)
  fetch-chunks_from (suc n) k value allow_partial c v h (inr inside) =
      let id : ChunkId = content_id (chunk_at k value) in
      let (c', rest) =
        fetch-chunks_from n (suc k) value allow_partial (Arc.get d dec c id).0
          (get-IsValid d dec c id v) (get-IsResident value c id v h) (ground arith) in
      (
        c',
        fetch_step allow_partial (ids_of d dec content_id (split_value value)) k
            (numbers_from (suc k) n) c (chunk_at k value) id
            (get_elem?-ids_of_chunk value k (omega arith))
            ((get-lookup d dec c id v).0 ∙ h.held k (omega arith)) c' (chunks_from (suc k) n value)
            rest,
      )
