-- ===== src/Coordinator/Layers.antt =====
-- `MemoryCache` as a layer of the coordinator, and what the coordinator asks of a layer.
use el_cache.Common.{
  ℕ, ◌≡◌, refl, true, false, Option, none, some, List, [], Option-cases, inl, inr,
}
use el_cache.Arc.{Doubles}
use el_cache.Memory
use el_cache.Memory.{
  MemoryCache, ReadOptions, ReadResult, CacheMetadata, Stored, ErrorCode, get_descriptor,
  remove_descriptor, remove_chunks, missed, miss, hit, partial_hit, ok, not_found,
}
use el_cache.Memory.Remove.{get_descriptor-remove_descriptor_self}
use el_cache.Coordinator.{Layer, Availability, unavailable, accepted}

-- A layer answers no read of a key after it was removed.
pub record Forgets {K : Type 0} (l : Layer K) : Type 0 where
  pub forgets :
      (x : l.State) (key : K) (opts : ReadOptions)
      → accepted opts (l.get (l.remove x key).0 key opts).1 ≡ false

-- The result of `check` as the interface has it.
abbrev pub availability : Option Memory.AvailabilityResult → Availability
availability none = unavailable
availability (some a) = record {
  exists_there = true;
  metadata = some a.metadata;
  available_ranges = a.available;
  missing_ranges = elim a.missing [ none ↦ [] | some ranges ↦ ranges ];
}

module _ {K ChunkId : Type 0} (dec_key : Discrete K) (d : Doubles) (dec : Discrete ChunkId)
    (content_id : List ℕ → ChunkId) (key_size : K → ℕ) where
  -- The state is the clock's reading and the cache.
  abbrev pub memory_layer : Layer K
  memory_layer = record {
    State = ℕ × MemoryCache K ChunkId d.Double;
    get = λ x key opts.
        let r = Memory.get dec_key d dec content_id key_size x.1 x.0 key opts in ((x.0, r.0), r.1);
    put = λ x key value opts.
        let r =
          Memory.put dec_key d dec content_id key_size x.1 x.0 key value opts.ttl opts.flags in
        ((x.0, r.0), r.1);
    remove = λ x key.
        let r = Memory.remove dec_key d dec content_id key_size x.1 key in ((x.0, r.0), r.1);
    check =
        λ x key range. availability (Memory.check dec_key d dec content_id key_size x.1 key range);
    metadata = λ x key. elim (get_descriptor dec_key key x.1.descriptors) [
      | none ↦ none
      | some stored ↦ some stored.metadata
    ];
  }

  no_descriptor :
      (s : MemoryCache K ChunkId d.Double) (key : K)
      → get_descriptor dec_key key
          (Memory.remove dec_key d dec content_id key_size s key).0.descriptors
        ≡ none
  unfolding Memory.remove
  no_descriptor s key = elim (Option-cases (get_descriptor dec_key key s.descriptors)) [
    | inl e ↦ rw (e, Memory.remove) e
    | inr (x, e) ↦
        rw (e, Memory.remove) (get_descriptor-remove_descriptor_self dec_key key s.descriptors)
  ]

  pub get_unknown :
      (s : MemoryCache K ChunkId d.Double) (now : ℕ) (key : K) (opts : ReadOptions)
      → get_descriptor dec_key key s.descriptors ≡ none
      → (Memory.get dec_key d dec content_id key_size s now key opts).1 ≡ missed miss
  unfolding Memory.get
  get_unknown s now key opts e = rw (e, Memory.get) refl

  -- A read of an unknown key keeps the chunks.
  pub get_unknown_chunks :
      (s : MemoryCache K ChunkId d.Double) (now : ℕ) (key : K) (opts : ReadOptions)
      → get_descriptor dec_key key s.descriptors ≡ none
      → (Memory.get dec_key d dec content_id key_size s now key opts).0.chunk_cache ≡ s.chunk_cache
  unfolding Memory.get
  get_unknown_chunks s now key opts e = rw (e, Memory.get) refl

  pub memory_layer-Forgets : Forgets memory_layer
  memory_layer-Forgets = record {
    forgets = λ x key opts.
        rw
          (get_unknown (Memory.remove dec_key d dec content_id key_size x.1 key).0 x.0 key opts
            (no_descriptor x.1 key))
          refl;
  }
