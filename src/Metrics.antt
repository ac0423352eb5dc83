-- ===== src/Metrics.antt =====
-- `LatencyHistogram`, `Metrics` and `MetricsCollector` (include/elcache/metrics.hpp, src/http/metrics.cpp).
-- Each update of an atomic is a step. `double`, the bounds of the buckets and the clock are parameters.
use el_cache.Common.{
  ℕ, suc, ◌+◌, Bool, true, false, Option, none, some, List, [], ◌∷◌, ◌++◌, ltb, if◌then◌else◌,
  add64, map,
}
use el_cache.Cluster.{Stats}
use el_cache.Coordinator.Stats.{CacheStats}
pub mod Buckets
pub mod Export
mod Tests

-- `double`: `<=`, addition, division by a count, and the conversions from and to `uint64_t`.
pub record Doubles : Type 1 where
  pub Double : Type 0
  pub zero_point : Double
  pub less_equal : Double → Double → Bool
  pub add : Double → Double → Double
  pub divide : Double → ℕ → Double
  pub of_size : ℕ → Double
  pub to_size : Double → ℕ
  pub is_inf : Double → Bool
  -- `std::fixed` with a number of digits behind the point.
  pub fixed : ℕ → Double → List ℕ

module _ (t : Doubles) where
  pub record LatencyHistogram : Type 0 where
    pub buckets : List (t.Double × ℕ)
    pub count : ℕ
    pub sum : t.Double

  -- The bounds end with infinity.
  unfoldable pub new_histogram : List t.Double → LatencyHistogram
  new_histogram bounds = record {
    buckets = map (λ b. (b, 0)) bounds;
    count = 0;
    sum = t.zero_point;
  }

  -- The first bucket whose bound is not below the value counts it.
  unfoldable pub count_in : t.Double → List (t.Double × ℕ) → List (t.Double × ℕ)
  unfolding add64
  count_in v [] = []
  count_in v ((b, n) ∷ l) =
      let rest = (b, n) ∷ count_in v l in if t.less_equal v b then (b, add64 n 1) ∷ l else rest

  unfoldable pub observe : LatencyHistogram → t.Double → LatencyHistogram
  unfolding count_in add64
  observe h v = record {
    buckets = count_in v h.buckets;
    count = add64 h.count 1;
    sum = t.add h.sum v;
  }

  unfoldable pub cumulate : ℕ → List (t.Double × ℕ) → List (t.Double × ℕ)
  unfolding add64
  cumulate cumulative [] = []
  cumulate cumulative ((b, n) ∷ l) = (b, add64 cumulative n) ∷ cumulate (add64 cumulative n) l

  -- `Snapshot` has the fields of the histogram.
  unfoldable pub snapshot : LatencyHistogram → LatencyHistogram
  unfolding cumulate
  snapshot h = record h { buckets = cumulate 0 h.buckets }

  unfoldable pub clear : List (t.Double × ℕ) → List (t.Double × ℕ)
  clear [] = []
  clear ((b, n) ∷ l) = (b, 0) ∷ clear l

  unfoldable pub reset : LatencyHistogram → LatencyHistogram
  unfolding clear
  reset h = record { buckets = clear h.buckets; count = 0; sum = t.zero_point }

  -- The counters and gauges that are exported.
  pub record Metrics : Type 0 where
    pub cache_hits_total : ℕ
    pub cache_misses_total : ℕ
    pub cache_partial_hits_total : ℕ
    pub cache_gets_total : ℕ
    pub cache_puts_total : ℕ
    pub cache_deletes_total : ℕ
    pub bytes_read_total : ℕ
    pub bytes_written_total : ℕ
    pub memory_cache_size_bytes : t.Double
    pub memory_cache_capacity_bytes : t.Double
    pub memory_cache_entries : t.Double
    pub disk_cache_size_bytes : t.Double
    pub disk_cache_capacity_bytes : t.Double
    pub disk_cache_entries : t.Double
    pub memory_evictions_total : ℕ
    pub disk_evictions_total : ℕ
    pub get_latency_ms : LatencyHistogram
    pub put_latency_ms : LatencyHistogram
    pub delete_latency_ms : LatencyHistogram
    pub cluster_nodes_total : t.Double
    pub cluster_nodes_active : t.Double
    pub cluster_messages_sent_total : ℕ
    pub cluster_messages_received_total : ℕ
    pub http_requests_total : ℕ
    pub http_errors_total : ℕ
    pub http_request_latency_ms : LatencyHistogram
    pub http_connections_active : t.Double
    pub chunks_read_total : ℕ
    pub chunks_written_total : ℕ
    pub chunks_in_memory : t.Double
    pub chunks_on_disk : t.Double

  -- The statistics of the coordinator, of its disk cache and of the cluster, if they are there. The gauges
  -- of the memory cache are set from the statistics of both layers together.
  unfoldable pub collect_cache : Option CacheStats → Metrics → Metrics
  collect_cache none m = m
  collect_cache (some s) m = record m {
    memory_cache_entries = t.of_size s.entry_count;
    memory_cache_size_bytes = t.of_size s.size_bytes;
    memory_cache_capacity_bytes = t.of_size s.capacity_bytes;
  }

  unfoldable pub collect_disk : Option CacheStats → Metrics → Metrics
  collect_disk none m = m
  collect_disk (some s) m = record m {
    disk_cache_entries = t.of_size s.entry_count;
    disk_cache_size_bytes = t.of_size s.size_bytes;
    disk_cache_capacity_bytes = t.of_size s.capacity_bytes;
  }

  unfoldable pub collect_cluster : Option Stats → Metrics → Metrics
  collect_cluster none m = m
  collect_cluster (some s) m = record m {
    cluster_nodes_total = t.of_size s.total_nodes;
    cluster_nodes_active = t.of_size s.active;
  }

  -- The disk's statistics are there only where the coordinator's are.
  unfoldable pub collect :
      Option (CacheStats × Option CacheStats) → Option Stats → Metrics → Metrics
  unfolding collect_cache collect_disk collect_cluster
  collect none cluster m = collect_cluster cluster m
  collect (some (s, disk)) cluster m =
      collect_cluster cluster (collect_disk disk (collect_cache (some s) m))
