-- ===== src/Http/Handlers.antt =====
-- The handlers of `HttpHandler` (src/http/http_api.cpp) for cached values and for the server's own state.
-- A key is its bytes. What is not this code is `Outside`: doubles and their texts, the messages of a
-- status, the metrics collector, and the counters of the layers. A coroutine runs as one step.
use el_cache.Common.{
  ℕ, ◌+◌, Bool, true, Option, none, some, List, [], ltb, if◌then◌else◌, length, add64,
}
use el_cache.Range.{Range}
use el_cache.Memory.{
  ErrorCode, ReadOptions, ReadResult, CacheMetadata, hit, miss, partial_hit, max_key_size,
}
use el_cache.Memory
use el_cache.Coordinator
use el_cache.Coordinator.{
  Layer, Remote, Coordinator, WriteOptions, DeleteOptions, is_ok, is_partial,
}
use el_cache.Coordinator.Stats.{CacheStats, stats}
use el_cache.Cluster.{Stats}
use el_cache.Sparse.{SparseCache}
use el_cache.Text.{codes, is_empty, find_text, contains, substr}
use el_cache.Http.{
  HttpRequest, HttpResponse, header, has_range_header, parse_range_header, with_header,
  set_content_type, set_content_length, ok, created, no_content, not_found, bad_request,
  internal_error, service_unavailable, answer,
}
use el_cache.Http.Options.{
  read_reply, query_range, with_metadata, write_options, default_delete, json_body, stats_json,
  cluster_json,
}

pub record Outside (m d : Layer (List ℕ)) (c : Remote (List ℕ)) : Type 1 where
  -- `double`: a share in percent, `>=`, `std::to_string`, and `<<`.
  pub Double : Type 0
  pub zero_percent : Double
  pub full_percent : Double
  pub percent : ℕ → ℕ → Double
  pub at_least : Double → Double → Bool
  pub to_string : Double → List ℕ
  pub streamed : Double → List ℕ
  -- `Status::message()`.
  pub message : ErrorCode → List ℕ
  -- `MetricsCollector`.
  pub Metrics : Type 0
  pub collect : Metrics → Metrics
  pub export_json : Metrics → List ℕ
  pub export_prometheus : Metrics → List ℕ
  -- `stats()` of the layers and of the cluster.
  pub memory_stats : m.State → CacheStats
  pub disk_stats : d.State → CacheStats
  pub cluster_stats : c.State → Stats

-- What a handler ends in: a response, an exception that it does not catch, or a write that the source
-- leaves undefined.
pub data Reply : Type 0 where
  respond : HttpResponse → Reply
  thrown : Reply
  undefined : Reply

abbrev pub cache_prefix : ℕ
cache_prefix = 7

module _ {m d : Layer (List ℕ)} {c : Remote (List ℕ)} (o : Outside m d c) where
  -- The state behind the handlers: `cache_`, the global sparse cache, and `metrics_`.
  pub record Server : Type 0 where
    pub cache : Coordinator m d c
    pub sparse : SparseCache (List ℕ)
    pub metrics : Option o.Metrics

  -- The range of the `Range` header, for which the value's size is looked up.
  unfoldable pub header_range : Server → HttpRequest → List ℕ → Option (Option Range)
  unfolding has_range_header Coordinator.metadata parse_range_header
  header_range s req key =
      if has_range_header req
      then elim (Coordinator.metadata m d c s.cache key) [
        | none ↦ some none
        | some meta ↦ elim (parse_range_header req meta.total_size) [
          | none ↦ none
          | some r ↦ some (some r)
        ]
      ]
      else some none

  unfoldable pub asked_range : Server → HttpRequest → List ℕ → Option (Option Range)
  unfolding header_range query_range
  asked_range s req key = elim (header_range s req key) [
    | none ↦ none
    | some range ↦ if is_empty req.query then some range else query_range req.query range
  ]

  -- `cache_.get` and the response to its result.
  unfoldable pub read_value : Server → List ℕ → Option Range → Server × Reply
  unfolding read_reply
  read_value s key range =
      let (cache, r) =
        Coordinator.get m d c s.cache key (record { allow_partial = true; range = range }) in
      (record s { cache = cache }, respond (read_reply range r))

  unfoldable pub handle_get : Server → HttpRequest → Server × Reply
  unfolding substr asked_range read_value
  handle_get s req = elim (substr cache_prefix req.path) [
    | none ↦ (s, thrown)
    | some key ↦
        if is_empty key
        then (s, respond (bad_request (codes "Missing cache key")))
        else elim (asked_range s req key) [
          | none ↦ (s, thrown)
          | some range ↦ read_value s key range
        ]
  ]

  -- `cache_.put` and its status.
  unfoldable pub store_value : Server → List ℕ → List ℕ → WriteOptions → Server × ErrorCode
  unfolding Coordinator.put
  store_value s key value opts =
      let (cache, status) = Coordinator.put m d c s.cache key value opts in
      (record s { cache = cache }, status)

  unfoldable pub handle_put : Server → HttpRequest → Server × Reply
  unfolding substr write_options store_value
  handle_put s req = elim (substr cache_prefix req.path) [
    | none ↦ (s, thrown)
    | some key ↦
        if is_empty key
        then (s, respond (bad_request (codes "Missing cache key")))
        else if ltb max_key_size (length key)
        then (s, respond (bad_request (codes "Key too large")))
        else elim (write_options req) [
          | none ↦ (s, thrown)
          | some opts ↦
              let (s', status) = store_value s key req.body opts in
              (s', respond (if is_ok status then created else internal_error (o.message status)))
        ]
  ]

  unfoldable pub handle_delete : Server → HttpRequest → Server × Reply
  unfolding substr Coordinator.remove
  handle_delete s req = elim (substr cache_prefix req.path) [
    | none ↦ (s, thrown)
    | some key ↦
        let (cache, status) = Coordinator.remove m d c s.cache key default_delete in
        if is_empty key then (s, respond (bad_request (codes "Missing cache key"))) else (
          record s { cache = cache },
          respond (elim status [
            | Memory.ok ↦ no_content
            | Memory.not_found ↦ not_found (codes "Key not found")
            | other ↦ internal_error (o.message other)
          ]),
        )
  ]

  unfoldable pub handle_head : Server → HttpRequest → Server × Reply
  unfolding substr Coordinator.metadata
  handle_head s req = elim (substr cache_prefix req.path) [
    | none ↦ (s, thrown)
    | some key ↦ (
      s,
      respond (
          if is_empty key
          then bad_request (codes "Missing cache key")
          else elim (Coordinator.metadata m d c s.cache key) [
            | none ↦ not_found (codes "Key not found")
            | some meta ↦ set_content_length meta.total_size (
                with_header (codes "Accept-Ranges") (codes "bytes")
                  (with_metadata (some meta) (answer 200 (codes "OK") [])))
          ]),
    )
  ]

  unfoldable pub handle_options : Server → HttpRequest → Server × Reply
  handle_options s req = (
    s,
    respond (
        with_header (codes "Accept-Ranges") (codes "bytes") (
          with_header (codes "Allow") (codes "GET, PUT, POST, DELETE, HEAD, OPTIONS")
            (answer 200 (codes "OK") []))),
  )

  unfoldable pub handle_stats : Server → HttpRequest → Server × Reply
  unfolding stats stats_json add64
  handle_stats s req =
      let memory : Option CacheStats = elim s.cache.memory [
        | none ↦ none
        | some x ↦ some (o.memory_stats x)
      ] in
      let disk : Option CacheStats = elim s.cache.disk [
        | none ↦ none
        | some x ↦ some (o.disk_stats x)
      ] in
      let t : CacheStats = stats memory disk in
      let hit_rate : o.Double =
        if ltb 0 (t.hits + t.misses)
        then o.percent t.hits (t.hits + t.misses)
        else o.zero_percent in
      (s, respond (json_body (stats_json t (o.streamed hit_rate))))

  unfoldable pub handle_health : Server → HttpRequest → Server × Reply
  handle_health s req = (s, respond (json_body (codes "{\"status\": \"healthy\"}")))

  unfoldable pub handle_cluster : Server → HttpRequest → Server × Reply
  unfolding cluster_json
  handle_cluster s req = (
    s,
    respond (elim s.cache.cluster [
      | none ↦ json_body (codes "{\"mode\": \"standalone\"}")
      | some x ↦ json_body (cluster_json (o.cluster_stats x))
    ]),
  )

  unfoldable pub handle_metrics : Server → HttpRequest → Server × Reply
  unfolding header find_text
  handle_metrics s req = elim s.metrics [
    | none ↦ (s, respond (service_unavailable (codes "Metrics not configured")))
    | some x ↦
        let x' : o.Metrics = o.collect x in
        (
          record s { metrics = some x' },
          respond (
              if contains (codes "application/json") (header req (codes "Accept"))
              then json_body (o.export_json x')
              else set_content_type (codes "text/plain; version=0.0.4; charset=utf-8")
                  (ok (o.export_prometheus x'))),
        )
  ]
