-- ===== src/Http/Written.antt =====
-- Values in the memory cache behind the HTTP handlers (src/http/http_api.cpp): written, and then read.
use el_cache.Common.{
  ℕ, ◌+◌, ◌-◌, ◌≡◌, ◌≤◌, ◌<◌, refl, sym, ap, subst, ◌∙◌, true, false, Option, none, some, List,
  arith, length, min,
}
use el_cache.Range.{Range, chunk_size}
use el_cache.Arc.{Doubles}
use el_cache.Arc.Invariant.{IsValid}
use el_cache.Memory
use el_cache.Memory.{MemoryCache, CacheMetadata, ReadOptions, max_key_size}
use el_cache.Memory.Get.{asked, slice_of}
use el_cache.Memory.PutGet.{metadata_of, Alive, put_stores}
use el_cache.Coordinator
use el_cache.Coordinator.{Layer, Remote, Coordinator, WriteOptions}
use el_cache.Coordinator.Layers.{memory_layer}
use el_cache.Coordinator.Reads.{put-memory}
use el_cache.Coordinator.Values.{at_time, get-put_through}
use el_cache.Text.{substr}
use el_cache.Http.{HttpRequest}
use el_cache.Http.Ranges.{RangeSpec, from_to, from, suffix, spec_text, meaning, Satisfiable}
use el_cache.Http.Options.{write_options, read_response}
use el_cache.Http.Handlers.{
  Outside, respond, Server, cache_prefix, handle_get, handle_put, asked_range,
}
use el_cache.Http.Gets.{handle_get-read_value, read_value-hit, handle_put-put}

-- A satisfiable specification means bytes inside the value.
pub meaning_inside :
    (spec : RangeSpec) (total : ℕ)
    → Satisfiable spec total
    → ((meaning spec total).offset < total)
      × (0 < (meaning spec total).length)
      × ((meaning spec total).offset + (meaning spec total).length ≤ total)
unfolding meaning
meaning_inside (from_to a b) total h =
    (omega (arith, h.0, h.1), omega (arith, h.0), omega (arith, h.0, h.1))
meaning_inside (from a) total h = (h, omega arith, omega arith)
meaning_inside (suffix n) total h = (omega (arith, h.0, h.1), h.0, omega (arith, h.1))

-- A range inside the value is asked for as it stands.
pub asked_inside :
    (r : Range) (value : List ℕ)
    → r.offset + r.length ≤ length value
    → asked (record { allow_partial = true; range = some r }) value ≡ r
unfolding Memory.requested
asked_inside r value h =
    let e : min r.length (length value - r.offset) ≡ r.length = omega arith in
    ap (λ n. record { offset = r.offset; length = n }) e

pub length-spec_text : (spec : RangeSpec) → 0 < length (spec_text spec)
unfolding spec_text
length-spec_text spec = omega arith

module _ {ChunkId : Type 0} (dec_key : Discrete (List ℕ)) (dbl : Doubles) (dec : Discrete ChunkId)
    (content_id : List ℕ → ChunkId) {d : Layer (List ℕ)} {c : Remote (List ℕ)}
    (o : Outside (memory_layer dec_key dbl dec content_id length) d c) where
  abbrev pub m : Layer (List ℕ)
  m = memory_layer dec_key dbl dec content_id length

  -- The server when the memory cache's clock reads a later time.
  abbrev pub server_at : ℕ → Server o → ℕ × MemoryCache (List ℕ) ChunkId dbl.Double → Server o
  server_at later s x = record s {
    cache = at_time dec_key dbl dec content_id length d c later s.cache x;
  }

  -- What memory says of a value after `put`.
  metadata-put :
      (s : Coordinator m d c) (now later : ℕ) (x : MemoryCache (List ℕ) ChunkId dbl.Double)
      (key value : List ℕ)
      → (opts : WriteOptions) → length key ≤ max_key_size
      → length value ≤ chunk_size
      → Coordinator.metadata m d c
          (at_time dec_key dbl dec content_id length d c later s (m.put (now, x) key value opts).0)
          key
        ≡ some (metadata_of now value opts.ttl opts.flags)
  unfolding Coordinator.metadata
  metadata-put s now later x key value opts hk small =
      let (stored, found, cache) =
        put_stores dec_key dbl dec content_id length x now key value opts.ttl opts.flags hk
          (omega arith) in
      rw (found, Coordinator.metadata) refl

  abbrev pub how : Option Range → ReadOptions
  how range = record { allow_partial = true; range = range }

  -- A later read of a range of the value that a coordinator holds, and of its metadata.
  abbrev pub Written :
      ℕ → List ℕ → List ℕ → CacheMetadata → Option Range → Coordinator m d c → Type 0
  Written later key value meta range s =
      (y : ℕ × MemoryCache (List ℕ) ChunkId dbl.Double) × (s.memory ≡ some y)
      × ((Coordinator.get m d c (at_time dec_key dbl dec content_id length d c later s y) key
            (how range)).1
          ≡ slice_of value (asked (how range) value) meta)
      × (Coordinator.metadata m d c (at_time dec_key dbl dec content_id length d c later s y) key
          ≡ some meta)

  pub put-Written :
      (s : Coordinator m d c) (now : ℕ) (x : MemoryCache (List ℕ) ChunkId dbl.Double)
      (key value : List ℕ) (opts : WriteOptions) (later : ℕ)
      → (range : Option Range) → s.memory ≡ some (now, x)
      → s.prefer_local ≡ true
      → opts.no_memory ≡ false
      → length key ≤ max_key_size
      → length value ≤ chunk_size
      → IsValid dbl dec x.chunk_cache
      → Alive now opts.ttl later
      → (asked (how range) value).offset < length value
      → 0 < (asked (how range) value).length
      → Written later key value
          (metadata_of now value opts.ttl opts.flags)
          range
          (Coordinator.put m d c s key value opts).0
  put-Written s now x key value opts later range e local kept hk small v alive inside pos =
      let (y, stored, found) =
        get-put_through dec_key dbl dec content_id length d c s now x key value opts later
          (how range) e local kept hk small v alive inside pos in
      let written = (put-memory m d c s (now, x) key value opts e kept).0 in
      let same = ap (λ z. elim z [ none ↦ y | some w ↦ w ]) (sym stored ∙ written) in
      (
        y,
        stored,
        found,
        ap
              (λ z.
                Coordinator.metadata m d c
                  (at_time dec_key dbl dec content_id length d c later
                    (Coordinator.put m d c s key value opts).0 z)
                  key)
              same
            ∙ metadata-put (Coordinator.put m d c s key value opts).0 now later x key value opts hk
                small,
      )

  pub handle_put-Written :
      (s : Server o) (now : ℕ) (x : MemoryCache (List ℕ) ChunkId dbl.Double) (req : HttpRequest)
      (key : List ℕ) (opts : WriteOptions)
      → (later : ℕ) (range : Option Range) → s.cache.memory ≡ some (now, x)
      → s.cache.prefer_local ≡ true
      → substr cache_prefix req.path ≡ some key
      → 0 < length key
      → length key ≤ max_key_size
      → write_options req ≡ some opts
      → opts.no_memory ≡ false
      → length req.body ≤ chunk_size
      → IsValid dbl dec x.chunk_cache
      → Alive now opts.ttl later
      → (asked (how range) req.body).offset < length req.body
      → 0 < (asked (how range) req.body).length
      → Written later key req.body
          (metadata_of now req.body opts.ttl opts.flags)
          range
          (handle_put o s req).0.cache
  handle_put-Written s now x req key opts later range e local ek pos hk eo kept small v alive inside
        more =
      subst (Written later key req.body (metadata_of now req.body opts.ttl opts.flags) range)
        (sym (handle_put-put o s req key opts ek pos hk eo))
        (put-Written s.cache now x key req.body opts later range e local kept hk small v alive
          inside more)

  pub handle_get-Written :
      (t : Server o) (req : HttpRequest) (key value : List ℕ) (meta : CacheMetadata)
      (range : Option Range)
      → (Coordinator.get m d c t.cache key (how range)).1
        ≡ slice_of value (asked (how range) value) meta
      → substr cache_prefix req.path ≡ some key
      → 0 < length key
      → asked_range o t req key ≡ some range
      → (handle_get o t req).1
        ≡ respond (read_response range (slice_of value (asked (how range) value) meta))
  handle_get-Written t req key value meta range found ek pos ea =
      ap (λ a. a.1) (handle_get-read_value o t req key range ek pos ea)
      ∙ read_value-hit o t key range (slice_of value (asked (how range) value) meta) refl found
