-- ===== src/Metrics/Export.antt =====
-- The texts that `MetricsCollector` exports (src/http/metrics.cpp). The uptime is an argument.
use el_cache.Common.{ℕ, List, [], ◌∷◌, ◌++◌, ltb, if◌then◌else◌, add64}
use el_cache.Text.{codes, decimal}
use el_cache.Metrics.{Doubles, LatencyHistogram, Metrics, snapshot}

abbrev help_line : List ℕ → List ℕ → List ℕ
help_line name help = codes "# HELP " ++ name ++ codes " " ++ help ++ codes "\n"

abbrev type_line : List ℕ → List ℕ → List ℕ
type_line name kind = codes "# TYPE " ++ name ++ codes " " ++ kind ++ codes "\n"

unfoldable pub write_counter : List ℕ → List ℕ → ℕ → List ℕ
write_counter name help value =
    help_line name help
    ++ type_line name (codes "counter")
    ++ name
    ++ codes " "
    ++ decimal value
    ++ codes "\n"

-- A member of a JSON object that is inside another one, with what ends its line.
abbrev member : List ℕ → List ℕ → List ℕ → List ℕ
member name value line_end = codes "    \"" ++ name ++ codes "\": " ++ value ++ line_end

abbrev more : List ℕ
more = codes ",\n"

abbrev last : List ℕ
last = codes "\n  },\n"

module _ (t : Doubles) where
  unfoldable pub write_gauge : List ℕ → List ℕ → t.Double → List ℕ
  write_gauge name help value =
      help_line name help
      ++ type_line name (codes "gauge")
      ++ name
      ++ codes " "
      ++ t.fixed 2 value
      ++ codes "\n"

  -- The loop over the buckets.
  unfoldable pub write_buckets : List ℕ → List (t.Double × ℕ) → List ℕ
  write_buckets name [] = []
  write_buckets name ((bound, count) ∷ l) =
      name
      ++ codes "_bucket{le=\""
      ++ (if t.is_inf bound then codes "+Inf" else t.fixed 1 bound)
      ++ codes "\"} "
      ++ decimal count
      ++ codes "\n"
      ++ write_buckets name l

  unfoldable pub write_histogram : List ℕ → List ℕ → LatencyHistogram t → List ℕ
  unfolding write_buckets
  write_histogram name help snap =
      help_line name help
      ++ type_line name (codes "histogram")
      ++ write_buckets name snap.buckets
      ++ name
      ++ codes "_sum "
      ++ t.fixed 3 snap.sum
      ++ codes "\n"
      ++ name
      ++ codes "_count "
      ++ decimal snap.count
      ++ codes "\n"

  -- Hits among hits, misses and partial hits.
  unfoldable pub hit_rate : Metrics t → t.Double
  unfolding add64
  hit_rate m =
      let total_gets : ℕ =
        add64 (add64 m.cache_hits_total m.cache_misses_total) m.cache_partial_hits_total in
      if ltb 0 total_gets then t.divide (t.of_size m.cache_hits_total) total_gets else t.zero_point

  unfoldable pub cache_part : Metrics t → List ℕ
  cache_part m =
      write_counter (codes "elcache_cache_hits_total") (codes "Total number of cache hits")
        m.cache_hits_total
      ++ write_counter (codes "elcache_cache_misses_total") (codes "Total number of cache misses")
          m.cache_misses_total
      ++ write_counter (codes "elcache_cache_partial_hits_total")
          (codes "Total number of partial cache hits") m.cache_partial_hits_total
      ++ write_counter (codes "elcache_cache_gets_total") (codes "Total number of get operations")
          m.cache_gets_total
      ++ write_counter (codes "elcache_cache_puts_total") (codes "Total number of put operations")
          m.cache_puts_total
      ++ write_counter (codes "elcache_cache_deletes_total")
          (codes "Total number of delete operations") m.cache_deletes_total
      ++ write_counter (codes "elcache_bytes_read_total") (codes "Total bytes read from cache")
          m.bytes_read_total
      ++ write_counter (codes "elcache_bytes_written_total") (codes "Total bytes written to cache")
          m.bytes_written_total

  unfoldable pub size_part : Metrics t → List ℕ
  size_part m =
      write_gauge (codes "elcache_memory_cache_size_bytes")
        (codes "Current size of memory cache in bytes") m.memory_cache_size_bytes
      ++ write_gauge (codes "elcache_memory_cache_capacity_bytes")
          (codes "Capacity of memory cache in bytes") m.memory_cache_capacity_bytes
      ++ write_gauge (codes "elcache_memory_cache_entries")
          (codes "Number of entries in memory cache") m.memory_cache_entries
      ++ write_gauge (codes "elcache_disk_cache_size_bytes")
          (codes "Current size of disk cache in bytes") m.disk_cache_size_bytes
      ++ write_gauge (codes "elcache_disk_cache_capacity_bytes")
          (codes "Capacity of disk cache in bytes") m.disk_cache_capacity_bytes
      ++ write_gauge (codes "elcache_disk_cache_entries") (codes "Number of entries in disk cache")
          m.disk_cache_entries
      ++ write_counter (codes "elcache_memory_evictions_total")
          (codes "Total memory cache evictions") m.memory_evictions_total
      ++ write_counter (codes "elcache_disk_evictions_total") (codes "Total disk cache evictions")
          m.disk_evictions_total

  unfoldable pub latency_part : Metrics t → List ℕ
  latency_part m =
      write_histogram (codes "elcache_get_latency_ms")
        (codes "Get operation latency in milliseconds") (snapshot t m.get_latency_ms)
      ++ write_histogram (codes "elcache_put_latency_ms")
          (codes "Put operation latency in milliseconds") (snapshot t m.put_latency_ms)
      ++ write_histogram (codes "elcache_delete_latency_ms")
          (codes "Delete operation latency in milliseconds") (snapshot t m.delete_latency_ms)

  unfoldable pub cluster_part : Metrics t → List ℕ
  cluster_part m =
      write_gauge (codes "elcache_cluster_nodes_total") (codes "Total number of nodes in cluster")
        m.cluster_nodes_total
      ++ write_gauge (codes "elcache_cluster_nodes_active")
          (codes "Number of active nodes in cluster") m.cluster_nodes_active
      ++ write_counter (codes "elcache_cluster_messages_sent_total")
          (codes "Total cluster messages sent") m.cluster_messages_sent_total
      ++ write_counter (codes "elcache_cluster_messages_received_total")
          (codes "Total cluster messages received") m.cluster_messages_received_total

  unfoldable pub http_part : Metrics t → List ℕ
  http_part m =
      write_counter (codes "elcache_http_requests_total") (codes "Total HTTP requests handled")
        m.http_requests_total
      ++ write_counter (codes "elcache_http_errors_total") (codes "Total HTTP errors")
          m.http_errors_total
      ++ write_histogram (codes "elcache_http_request_latency_ms")
          (codes "HTTP request latency in milliseconds") (snapshot t m.http_request_latency_ms)
      ++ write_gauge (codes "elcache_http_connections_active") (codes "Active HTTP connections")
          m.http_connections_active

  unfoldable pub rest_part : Metrics t → t.Double → List ℕ
  rest_part m uptime =
      write_counter (codes "elcache_chunks_read_total") (codes "Total chunks read")
        m.chunks_read_total
      ++ write_counter (codes "elcache_chunks_written_total") (codes "Total chunks written")
          m.chunks_written_total
      ++ write_gauge (codes "elcache_chunks_in_memory") (codes "Chunks currently in memory")
          m.chunks_in_memory
      ++ write_gauge (codes "elcache_chunks_on_disk") (codes "Chunks currently on disk")
          m.chunks_on_disk
      ++ write_gauge (codes "elcache_uptime_seconds") (codes "Time since server start in seconds")
          uptime
      ++ write_gauge (codes "elcache_cache_hit_rate")
          (codes "Cache hit rate (hits / total requests)") (hit_rate m)

  unfoldable pub export_prometheus : Metrics t → t.Double → List ℕ
  unfolding cache_part size_part latency_part cluster_part http_part rest_part
  export_prometheus m uptime =
      cache_part m
      ++ size_part m
      ++ latency_part m
      ++ cluster_part m
      ++ http_part m
      ++ rest_part m uptime

  -- The mean of a histogram's values.
  unfoldable pub average : LatencyHistogram t → t.Double
  average h = if ltb 0 h.count then t.divide h.sum h.count else t.zero_point

  unfoldable pub json_parts : Metrics t → List ℕ
  json_parts m =
      codes "  \"cache\": {\n"
      ++ member (codes "hits") (decimal m.cache_hits_total) more
      ++ member (codes "misses") (decimal m.cache_misses_total) more
      ++ member (codes "partial_hits") (decimal m.cache_partial_hits_total) more
      ++ member (codes "gets") (decimal m.cache_gets_total) more
      ++ member (codes "puts") (decimal m.cache_puts_total) more
      ++ member (codes "deletes") (decimal m.cache_deletes_total) more
      ++ member (codes "bytes_read") (decimal m.bytes_read_total) more
      ++ member (codes "bytes_written") (decimal m.bytes_written_total) last
      ++ codes "  \"memory_cache\": {\n"
      ++ member (codes "size_bytes") (decimal (t.to_size m.memory_cache_size_bytes)) more
      ++ member (codes "capacity_bytes") (decimal (t.to_size m.memory_cache_capacity_bytes)) more
      ++ member (codes "entries") (decimal (t.to_size m.memory_cache_entries)) more
      ++ member (codes "evictions") (decimal m.memory_evictions_total) last
      ++ codes "  \"disk_cache\": {\n"
      ++ member (codes "size_bytes") (decimal (t.to_size m.disk_cache_size_bytes)) more
      ++ member (codes "capacity_bytes") (decimal (t.to_size m.disk_cache_capacity_bytes)) more
      ++ member (codes "entries") (decimal (t.to_size m.disk_cache_entries)) more
      ++ member (codes "evictions") (decimal m.disk_evictions_total) last
      ++ codes "  \"cluster\": {\n"
      ++ member (codes "nodes_total") (decimal (t.to_size m.cluster_nodes_total)) more
      ++ member (codes "nodes_active") (decimal (t.to_size m.cluster_nodes_active)) more
      ++ member (codes "messages_sent") (decimal m.cluster_messages_sent_total) more
      ++ member (codes "messages_received") (decimal m.cluster_messages_received_total) last
      ++ codes "  \"http\": {\n"
      ++ member (codes "requests") (decimal m.http_requests_total) more
      ++ member (codes "errors") (decimal m.http_errors_total) more
      ++ member (codes "connections_active") (decimal (t.to_size m.http_connections_active)) last

  unfoldable pub export_json : Metrics t → t.Double → List ℕ
  unfolding snapshot average json_parts
  export_json m uptime =
      codes "{\n"
      ++ json_parts m
      ++ codes "  \"latency_ms\": {\n"
      ++ member (codes "get_avg") (t.fixed 3 (average (snapshot t m.get_latency_ms))) more
      ++ member (codes "put_avg") (t.fixed 3 (average (snapshot t m.put_latency_ms))) last
      ++ codes "  \"uptime_seconds\": "
      ++ t.fixed 1 uptime
      ++ codes "\n"
      ++ codes "}\n"
