-- ===== src/Http/PutGet.antt =====
-- PUT and GET over HTTP (src/http/http_api.cpp), with a memory cache behind the coordinator.
use el_cache.Common.{
  ℕ, ◌≡◌, ◌≤◌, ◌<◌, refl, sym, ap, subst, ◌∙◌, true, false, none, some, List, [], arith, length,
  take, drop,
}
use el_cache.Range.{chunk_size}
use el_cache.Arc.{Doubles}
use el_cache.Arc.Invariant.{IsValid}
use el_cache.Memory.{MemoryCache, max_key_size}
use el_cache.Memory.Get.{asked, slice_of}
use el_cache.Memory.PutGet.{metadata_of, Alive}
use el_cache.Coordinator.{Layer, Remote, WriteOptions}
use el_cache.Coordinator.Layers.{memory_layer}
use el_cache.Coordinator.Values.{whole_slice}
use el_cache.Text.{codes, substr, decimal}
use el_cache.Http.{HttpRequest, HttpResponse, header, content_range, find_header}
use el_cache.Http.Ranges.{RangeSpec, spec_text, meaning, Satisfiable, parse_range_header-spec_text}
use el_cache.Http.Options.{write_options, read_response}
use el_cache.Http.Handlers.{Outside, respond, Server, cache_prefix, handle_get, handle_put}
use el_cache.Http.Gets.{asked_range-header, asked_range-none}
use el_cache.Http.Written.{
  meaning_inside, asked_inside, length-spec_text, server_at, how, handle_put-Written,
  handle_get-Written,
}

module _ {ChunkId : Type 0} (dec_key : Discrete (List ℕ)) (dbl : Doubles) (dec : Discrete ChunkId)
    (content_id : List ℕ → ChunkId) {d : Layer (List ℕ)} {c : Remote (List ℕ)}
    (o : Outside (memory_layer dec_key dbl dec content_id length) d c) where
  -- After a PUT of a value of at most one chunk, under a key of an allowed size, whose options can be read
  -- and do not leave memory out, with a valid memory cache that is asked first, whatever the disk and the
  -- cluster do: a GET of the key within the lifetime, whose end the clock's `int64_t` of nanoseconds
  -- can hold, without a query, whose `Range` asks for bytes of the value only, has the status 206, those bytes as its body and their place in `Content-Range`.
  pub handle_get-handle_put_range :
      (s : Server o) (now : ℕ) (x : MemoryCache (List ℕ) ChunkId dbl.Double)
      (put_req get_req : HttpRequest) (key : List ℕ)
      → (opts : WriteOptions) (later : ℕ) (spec : RangeSpec) → s.cache.memory ≡ some (now, x)
      → s.cache.prefer_local ≡ true
      → substr cache_prefix put_req.path ≡ some key
      → substr cache_prefix get_req.path ≡ some key
      → 0 < length key
      → length key ≤ max_key_size
      → write_options put_req ≡ some opts
      → opts.no_memory ≡ false
      → length put_req.body ≤ chunk_size
      → IsValid dbl dec x.chunk_cache
      → Alive now opts.ttl later
      → get_req.query ≡ []
      → header get_req (codes "Range") ≡ spec_text spec
      → Satisfiable spec (length put_req.body)
      → (y : ℕ × MemoryCache (List ℕ) ChunkId dbl.Double) × (resp : HttpResponse) × ((handle_put o s
            put_req).0.cache.memory
          ≡ some y)
        × ((handle_get o
              (server_at dec_key dbl dec content_id o later (handle_put o s put_req).0 y)
              get_req).1
            ≡ respond resp)
        × (resp.status_code ≡ 206)
        × (resp.body
            ≡ take
                (meaning spec (length put_req.body)).length
                (drop (meaning spec (length put_req.body)).offset put_req.body))
        × (find_header (codes "Content-Range") resp.headers
            ≡ some (content_range (meaning spec (length put_req.body)) (length put_req.body)))
  unfolding read_response find_header
  handle_get-handle_put_range s now x put_req get_req key opts later spec e local ekp ekg pos hk eo
        kept small v alive eq er sat =
      let value = put_req.body in
      let r = meaning spec (length value) in
      let meta = metadata_of now value opts.ttl opts.flags in
      let (inside, more, fits) = meaning_inside spec (length value) sat in
      let whole = asked_inside r value fits in
      let (y, stored, found, known) =
        handle_put-Written dec_key dbl dec content_id o s now x put_req key opts later (some r) e
          local ekp pos hk eo kept small v alive
          (subst (λ z. z.offset < length value) (sym whole) inside)
          (subst (λ z. 0 < z.length) (sym whole) more) in
      let t = server_at dec_key dbl dec content_id o later (handle_put o s put_req).0 y in
      let range =
        asked_range-header o t get_req key meta r eq (rw er (length-spec_text spec)) known
          (parse_range_header-spec_text get_req spec (length value) er sat (omega arith)) in
      (
        y,
        read_response (some r) (slice_of value r meta),
        stored,
        handle_get-Written dec_key dbl dec content_id o t get_req key value meta (some r) found ekg
              pos range
            ∙ ap (λ z. respond (read_response (some r) (slice_of value z meta))) whole,
        refl,
        refl,
        refl,
      )

  -- The same for a value of a byte at least and a GET without `Range`: the status is 200, the body the value,
  -- and `Content-Length` its length.
  pub handle_get-handle_put :
      (s : Server o) (now : ℕ) (x : MemoryCache (List ℕ) ChunkId dbl.Double)
      (put_req get_req : HttpRequest) (key : List ℕ)
      → (opts : WriteOptions) (later : ℕ) → s.cache.memory ≡ some (now, x)
      → s.cache.prefer_local ≡ true
      → substr cache_prefix put_req.path ≡ some key
      → substr cache_prefix get_req.path ≡ some key
      → 0 < length key
      → length key ≤ max_key_size
      → write_options put_req ≡ some opts
      → opts.no_memory ≡ false
      → 0 < length put_req.body
      → length put_req.body ≤ chunk_size
      → IsValid dbl dec x.chunk_cache
      → Alive now opts.ttl later
      → get_req.query ≡ []
      → header get_req (codes "Range") ≡ []
      → (y : ℕ × MemoryCache (List ℕ) ChunkId dbl.Double) × (resp : HttpResponse) × ((handle_put o s
            put_req).0.cache.memory
          ≡ some y)
        × ((handle_get o
              (server_at dec_key dbl dec content_id o later (handle_put o s put_req).0 y)
              get_req).1
            ≡ respond resp)
        × (resp.status_code ≡ 200)
        × (resp.body ≡ put_req.body)
        × (find_header (codes "Content-Length") resp.headers ≡ some (decimal (length put_req.body)))
  unfolding read_response find_header
  handle_get-handle_put s now x put_req get_req key opts later e local ekp ekg pos hk eo kept
        some_byte small v alive eq er =
      let value = put_req.body in
      let meta = metadata_of now value opts.ttl opts.flags in
      let (start, size, bytes) =
        whole_slice dec_key dbl dec content_id length d c value
          (how dec_key dbl dec content_id o none) refl in
      let (y, stored, found, known) =
        handle_put-Written dec_key dbl dec content_id o s now x put_req key opts later none e local
          ekp pos hk eo kept small v alive (omega arith) (omega arith) in
      let t = server_at dec_key dbl dec content_id o later (handle_put o s put_req).0 y in
      (
        y,
        read_response none
            (slice_of value (asked (how dec_key dbl dec content_id o none) value) meta),
        stored,
        handle_get-Written dec_key dbl dec content_id o t get_req key value meta none found ekg pos
            (asked_range-none o t get_req key eq er),
        refl,
        bytes,
        ap (λ b. some (decimal (length b))) bytes,
      )
