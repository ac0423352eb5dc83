-- ===== src/Coordinator/Values.antt =====
-- The coordinator over a memory cache: values that are written and read back, and what a read from the
-- cluster leaves in memory.
use el_cache.Common.{
  ℕ, ◌-◌, ◌≡◌, ◌≢◌, ◌≤◌, ◌<◌, refl, ◌∙◌, sym, ap, subst, true, false, none, some, List, ◌∷◌, arith,
  length, take, drop, min, take_all,
}
use el_cache.Range.{chunk_size}
use el_cache.Arc.{Doubles}
use el_cache.Arc.Invariant.{IsValid}
use el_cache.Memory
use el_cache.Memory.{
  MemoryCache, ReadOptions, ReadResult, missed, miss, hit, max_key_size, get_descriptor,
}
use el_cache.Memory.Get.{asked, slice_of}
use el_cache.Memory.PutGet.{metadata_of, Alive, get-put_small}
use el_cache.Coordinator.{
  Layer, Remote, Coordinator, WriteOptions, accepted, get, put, fetched_options,
}
use el_cache.Coordinator.Layers.{memory_layer, get_unknown, get_unknown_chunks}
use el_cache.Coordinator.Reads.{get_from_memory, put-memory, get_fetched}

module _ {K ChunkId : Type 0} (dec_key : Discrete K) (dbl : Doubles) (dec : Discrete ChunkId)
    (content_id : List ℕ → ChunkId) (key_size : K → ℕ) (d : Layer K) (c : Remote K) where
  abbrev m : Layer K
  m = memory_layer dec_key dbl dec content_id key_size

  -- The clock of the memory cache at a later time.
  abbrev pub at_time :
      ℕ → Coordinator m d c → ℕ × MemoryCache K ChunkId dbl.Double → Coordinator m d c
  at_time later s x = record s { memory = some (later, x.1) }

  -- After `put` of a value of at most one chunk, under a key of an allowed size and with options that do not
  -- leave memory out, with a valid memory cache that is asked first, whatever the disk and the cluster do: a
  -- read within the lifetime, whose end the clock's `int64_t` of nanoseconds can hold, of a range that starts
  -- within the value and is not empty, is a hit with the bytes of the range up to the value's end.
  pub get-put_through :
      (s : Coordinator m d c) (now : ℕ) (x : MemoryCache K ChunkId dbl.Double) (key : K)
      (value : List ℕ) (opts : WriteOptions) (later : ℕ) (how : ReadOptions)
      → s.memory ≡ some (now, x)
      → s.prefer_local ≡ true
      → opts.no_memory ≡ false
      → key_size key ≤ max_key_size
      → length value ≤ chunk_size
      → IsValid dbl dec x.chunk_cache
      → Alive now opts.ttl later
      → (asked how value).offset < length value
      → 0 < (asked how value).length
      → (y : ℕ × MemoryCache K ChunkId dbl.Double) × ((put m d c s key value opts).0.memory
          ≡ some y)
        × ((get m d c (at_time later (put m d c s key value opts).0 y) key how).1
            ≡ slice_of value (asked how value) (metadata_of now value opts.ttl opts.flags))
  get-put_through s now x key value opts later how e local kept hk small v alive inside pos =
      let (stored, still) = put-memory m d c s (now, x) key value opts e kept in
      let y = (m.put (now, x) key value opts).0 in
      let back =
        get-put_small dec_key dbl dec content_id key_size x now key value opts.ttl opts.flags later
          how hk small v alive inside pos in
      let found =
        get_from_memory m d c (at_time later (put m d c s key value opts).0 y) (later, y.1) key how
          refl (still ∙ local) (rw back refl) in
      (y, stored, found.0 ∙ back)

  -- A read of the whole value asks for all of its bytes.
  pub whole_slice :
      (value : List ℕ) (how : ReadOptions)
      → how.range ≡ none
      → ((asked how value).offset ≡ 0)
        × ((asked how value).length ≡ length value)
        × (take (asked how value).length (drop (asked how value).offset value) ≡ value)
  unfolding Memory.requested
  whole_slice value how e =
      let all : min (length value) (length value - 0) ≡ length value = omega arith in
      rw (e, Memory.requested)
        (refl, omega arith, rw all (take_all (length value) value (omega arith)))

  -- A key of an allowed size that memory does not know, read with a valid memory cache that is asked first,
  -- without a disk, in a cluster with seeds, where the first node of the key is another one and answers with a
  -- hit of at least a byte and at most a chunk: the read returns the node's answer; and whatever range it
  -- asked for, a later read of the whole value is a hit with the bytes that the node sent for that range.
  pub get-get_range :
      (s : Coordinator m d c) (now : ℕ) (x : MemoryCache K ChunkId dbl.Double) (y : c.State) (n : ℕ)
      (nodes : List ℕ) (key : K) (opts : ReadOptions) (later : ℕ) (how : ReadOptions)
      → s.memory ≡ some (now, x)
      → s.disk ≡ none
      → s.cluster ≡ some y
      → s.prefer_local ≡ true
      → s.has_seeds ≡ true
      → get_descriptor dec_key key x.descriptors ≡ none
      → c.nodes_for_key y key ≡ n ∷ nodes
      → n ≢ c.local_node y
      → (c.remote_get y n key opts).1.result ≡ hit
      → 0 < length (c.remote_get y n key opts).1.data_bytes
      → length (c.remote_get y n key opts).1.data_bytes ≤ chunk_size
      → key_size key ≤ max_key_size
      → IsValid dbl dec x.chunk_cache
      → how.range ≡ none
      → ((get m d c s key opts).1 ≡ (c.remote_get y n key opts).1)
        × (z : ℕ × MemoryCache K ChunkId dbl.Double) × ((get m d c s key opts).0.memory ≡ some z)
        × ((get m d c (at_time later (get m d c s key opts).0 z) key how).1.result ≡ hit)
        × ((get m d c (at_time later (get m d c s key opts).0 z) key how).1.data_bytes
            ≡ (c.remote_get y n key opts).1.data_bytes)
  get-get_range s now x y n nodes key opts later how em ed ec local seeds unknown list other found
        pos small hk v whole =
      let r = (c.remote_get y n key opts).1 in
      let x' = (Memory.get dec_key dbl dec content_id key_size x now key opts).0 in
      let missed_it : accepted opts (m.get (now, x) key opts).1 ≡ false =
        rw (get_unknown dec_key dbl dec content_id key_size x now key opts unknown) refl in
      let (answer, kept, still) =
        get_fetched m d c s (now, x) y n nodes key opts em local missed_it ed ec seeds list
          (ground arith) (rw found refl) (ground arith) in
      let z = (m.put (now, x') key r.data_bytes fetched_options).0 in
      let (start, size, bytes) = whole_slice r.data_bytes how whole in
      let valid =
        subst (IsValid dbl dec)
          (sym (get_unknown_chunks dec_key dbl dec content_id key_size x now key opts unknown)) v in
      let back =
        get-put_small dec_key dbl dec content_id key_size x' now key r.data_bytes none 0 later how
          hk small valid tt (omega arith) (omega arith) in
      let again =
        (get_from_memory m d c (at_time later (get m d c s key opts).0 z) (later, z.1) key how refl
          still (rw back refl)).0
        ∙ back in
      (answer, z, kept, ap (λ a. a.result) again, ap (λ a. a.data_bytes) again ∙ bytes)
