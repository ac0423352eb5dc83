-- ===== src/Http/Finalize.antt =====
-- The end of a sparse value over HTTP (src/http/http_api.cpp): it leaves the sparse cache before it is
-- stored.
use el_cache.Common.{
  ℕ, ◌≡◌, ◌≤◌, ◌<◌, refl, sym, ap, subst, ◌∙◌, true, false, Option, none, some, List, [], ◌++◌,
  arith, length, if◌then◌else◌,
}
use el_cache.Range.{chunk_size}
use el_cache.Arc.{Doubles}
use el_cache.Arc.Invariant.{IsValid}
use el_cache.Memory.{MemoryCache, max_key_size}
use el_cache.Memory.Get.{asked, slice_of}
use el_cache.Memory.PutGet.{metadata_of, Alive}
use el_cache.Coordinator
use el_cache.Coordinator.{Layer, Remote, Coordinator, is_ok}
use el_cache.Coordinator.Layers.{memory_layer}
use el_cache.Coordinator.Values.{whole_slice}
use el_cache.Sparse
use el_cache.Sparse.{SparseEntry, SparseCache, success, is_complete}
use el_cache.Sparse.Table.{Distinct, find-erase_self}
use el_cache.Text.{codes, substr}
use el_cache.Http
use el_cache.Http.{HttpRequest, HttpResponse, header, created}
use el_cache.Http.Options.{ttl_option, read_response}
use el_cache.Http.Handlers.{Outside, respond, Server, cache_prefix, handle_get, store_value}
use el_cache.Http.SparseHandlers.{
  finalize_key, finalize_options, store_finalized, handle_sparse_finalize,
}
use el_cache.Http.Gets.{not_empty, asked_range-none}
use el_cache.Http.Written.{put-Written, handle_get-Written, server_at, how, Written}

module _ {m d : Layer (List ℕ)} {c : Remote (List ℕ)} (o : Outside m d c)
    (dec : Discrete (List ℕ)) where
  finalize_complete :
      (sparse : SparseCache (List ℕ)) (key : List ℕ) (e : SparseEntry)
      → Sparse.find dec key sparse ≡ some e
      → is_complete e ≡ true
      → Sparse.finalize dec sparse key ≡ (Sparse.erase dec key sparse, success e.data_bytes)
  unfolding Sparse.finalize
  finalize_complete sparse key e found full = rw (found, Sparse.finalize, full) refl

  -- A complete entry goes to the cache.
  handle_sparse_finalize-store_finalized :
      (s : Server o) (req : HttpRequest) (key : List ℕ) (e : SparseEntry)
      → finalize_key req.path ≡ some (some key)
      → 0 < length key
      → Sparse.find dec key s.sparse ≡ some e
      → is_complete e ≡ true
      → handle_sparse_finalize o dec s req
        ≡ store_finalized o dec
            (record s { sparse = Sparse.erase dec key s.sparse })
            req
            key
            e.data_bytes
  unfolding handle_sparse_finalize
  handle_sparse_finalize-store_finalized s req key e ek pos found full =
      let out = finalize_complete s.sparse key e found full in
      rw (ek, handle_sparse_finalize, not_empty key pos, out)
        (ap (λ z. store_finalized o dec (record s { sparse = z.0 }) req key e.data_bytes) out)

  store_finalized-put :
      (s : Server o) (req : HttpRequest) (key value : List ℕ) (ttl : Option ℕ)
      → ttl_option req ≡ some ttl
      → ((store_finalized o dec s req key value).0.cache
          ≡ (Coordinator.put m d c s.cache key value (finalize_options o dec ttl)).0)
        × ((store_finalized o dec s req key value).0.sparse ≡ s.sparse)
        × ((store_finalized o dec s req key value).1
            ≡ respond (
                if is_ok (Coordinator.put m d c s.cache key value (finalize_options o dec ttl)).1
                then created
                else Http.internal_error (
                    codes "Failed to store finalized data: "
                    ++ o.message
                        (Coordinator.put m d c s.cache key value (finalize_options o dec ttl)).1)))
  unfolding store_finalized store_value
  store_finalized-put s req key value ttl e = rw (e, store_finalized) (refl, refl, refl)

  -- The finalizing of a complete entry, in a sparse cache that repeats no key, by a request whose lifetime
  -- can be read, where the cache does not take the bytes: the response is an internal error with the
  -- status's message, and the sparse cache has no entry of the key any more.
  pub handle_sparse_finalize-loses :
      (s : Server o) (req : HttpRequest) (key : List ℕ) (e : SparseEntry) (ttl : Option ℕ)
      → finalize_key req.path ≡ some (some key)
      → 0 < length key
      → Sparse.find dec key s.sparse ≡ some e
      → is_complete e ≡ true
      → Distinct dec s.sparse
      → ttl_option req ≡ some ttl
      → is_ok (Coordinator.put m d c s.cache key e.data_bytes (finalize_options o dec ttl)).1
        ≡ false
      → ((handle_sparse_finalize o dec s req).1
          ≡ respond (
              Http.internal_error (
                codes "Failed to store finalized data: "
                ++ o.message
                    (Coordinator.put m d c s.cache key e.data_bytes
                      (finalize_options o dec ttl)).1)))
        × (Sparse.find dec key (handle_sparse_finalize o dec s req).0.sparse ≡ none)
  handle_sparse_finalize-loses s req key e ttl ek pos found full distinct et fails =
      let start = handle_sparse_finalize-store_finalized s req key e ek pos found full in
      let (cache, sparse, reply) =
        store_finalized-put (record s { sparse = Sparse.erase dec key s.sparse }) req key
          e.data_bytes ttl et in
      (
        ap (λ a. a.1) start ∙ reply ∙ rw fails refl,
        ap (λ a. Sparse.find dec key a.0.sparse) start
            ∙ ap (Sparse.find dec key) sparse
            ∙ find-erase_self dec key s.sparse distinct,
      )

module _ {ChunkId : Type 0} (dec_key : Discrete (List ℕ)) (dbl : Doubles) (dec : Discrete ChunkId)
    (content_id : List ℕ → ChunkId) {d : Layer (List ℕ)} {c : Remote (List ℕ)}
    (o : Outside (memory_layer dec_key dbl dec content_id length) d c) where
  -- The finalizing of a complete entry with at least a byte and at most a chunk, under a key of an allowed
  -- size and with a lifetime that can be read, with a valid memory cache that is asked first, whatever the
  -- disk and the cluster do: a GET of the key within the lifetime, whose end the clock's
  -- `int64_t` of nanoseconds can hold, without a query and without `Range`, has the status 200 and the bytes of the entry as its body.
  pub handle_get-handle_sparse_finalize :
      (s : Server o) (now : ℕ) (x : MemoryCache (List ℕ) ChunkId dbl.Double)
      (req get_req : HttpRequest) (key : List ℕ)
      → (e : SparseEntry) (ttl : Option ℕ) (later : ℕ) → s.cache.memory ≡ some (now, x)
      → s.cache.prefer_local ≡ true
      → finalize_key req.path ≡ some (some key)
      → substr cache_prefix get_req.path ≡ some key
      → 0 < length key
      → length key ≤ max_key_size
      → Sparse.find dec_key key s.sparse ≡ some e
      → is_complete e ≡ true
      → ttl_option req ≡ some ttl
      → 0 < length e.data_bytes
      → length e.data_bytes ≤ chunk_size
      → IsValid dbl dec x.chunk_cache
      → Alive now ttl later
      → get_req.query ≡ []
      → header get_req (codes "Range") ≡ []
      → (y : ℕ × MemoryCache (List ℕ) ChunkId dbl.Double) × (resp : HttpResponse)
        × ((handle_sparse_finalize o dec_key s req).0.cache.memory ≡ some y)
        × ((handle_get o
              (server_at dec_key dbl dec content_id o later
                (handle_sparse_finalize o dec_key s req).0
                y)
              get_req).1
            ≡ respond resp)
        × (resp.status_code ≡ 200)
        × (resp.body ≡ e.data_bytes)
  unfolding read_response
  handle_get-handle_sparse_finalize s now x req get_req key e ttl later em local ek ekg pos hk found
        full et some_byte small v alive eq er =
      let value = e.data_bytes in
      let opts = finalize_options o dec_key ttl in
      let meta = metadata_of now value ttl 0 in
      let (start, size, bytes) =
        whole_slice dec_key dbl dec content_id length d c value
          (how dec_key dbl dec content_id o none) refl in
      let first = handle_sparse_finalize-store_finalized o dec_key s req key e ek pos found full in
      let (cache, sparse, reply) =
        store_finalized-put o dec_key (record s { sparse = Sparse.erase dec_key key s.sparse }) req
          key value ttl et in
      let (y, stored, hit, known) =
        subst (Written dec_key dbl dec content_id o later key value meta none)
          (sym (ap (λ a. a.0.cache) first ∙ cache))
          (put-Written dec_key dbl dec content_id o s.cache now x key value opts later none em local
            refl hk small v alive (omega arith) (omega arith)) in
      let t =
        server_at dec_key dbl dec content_id o later (handle_sparse_finalize o dec_key s req).0 y in
      (
        y,
        read_response none
            (slice_of value (asked (how dec_key dbl dec content_id o none) value) meta),
        stored,
        handle_get-Written dec_key dbl dec content_id o t get_req key value meta none hit ekg pos
            (asked_range-none o t get_req key eq er),
        refl,
        bytes,
      )
