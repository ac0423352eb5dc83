-- ===== src/Config/Printing.antt =====
-- `Config::to_json` (src/core/config.cpp).
use el_cache.Common.{ℕ, ◌^◌, ◌-◌, Bool, List, [], ◌∷◌, ◌++◌, leb, if◌then◌else◌}
use el_cache.Text.{codes, decimal, minus}
use el_cache.Config.{
  DoubleText, NetworkConfig, ClusterConfig, PoolConfig, PerformanceConfig, MemoryCacheConfig,
  DiskCacheConfig, Config,
}

-- A member of the object on its line, and a Boolean as its text.
abbrev pub member : List ℕ → List ℕ → List ℕ → List ℕ
member name value line_end = codes "    \"" ++ name ++ codes "\": " ++ value ++ line_end

abbrev pub more : List ℕ
more = codes ",\n"

abbrev pub last : List ℕ
last = codes "\n"

abbrev text : List ℕ → List ℕ
text s = codes "\"" ++ s ++ codes "\""

abbrev pub bool_text : Bool → List ℕ
bool_text b = if b then codes "true" else codes "false"

unfoldable pub network_json : NetworkConfig → List ℕ
network_json n =
    codes "  \"network\": {\n"
    ++ member (codes "bind_address") (text n.bind_address) more
    ++ member (codes "cluster_port") (decimal n.cluster_port) more
    ++ member (codes "http_port") (decimal n.http_port) more
    ++ member (codes "sdk_port") (decimal n.sdk_port) more
    ++ member (codes "unix_socket_path") (text n.unix_socket_path) more
    ++ member (codes "shm_path") (text n.shm_path) more
    ++ member (codes "shm_size") (decimal n.shm_size) more
    ++ member (codes "max_connections") (decimal n.max_connections) last
    ++ codes "  },\n"

-- The loop over the seed nodes, with a comma before all but the first.
unfoldable pub seeds_json : List (List ℕ) → List ℕ
seeds_json [] = []
seeds_json (s ∷ []) = text s
seeds_json (s ∷ s' ∷ l) = text s ++ codes ", " ++ seeds_json (s' ∷ l)

-- A time is an `int64_t`, whose sign is printed.
unfoldable pub signed : ℕ → List ℕ
signed n = if leb (2 ^ 63) n then minus ∷ decimal (2 ^ 64 - n) else decimal n

unfoldable pub cluster_json : ClusterConfig → List ℕ
unfolding seeds_json signed
cluster_json c =
    codes "  \"cluster\": {\n"
    ++ member (codes "cluster_name") (text c.cluster_name) more
    ++ member (codes "seed_nodes") (codes "[" ++ seeds_json c.seed_nodes ++ codes "]") more
    ++ member (codes "gossip_interval_ms") (signed c.gossip_interval) more
    ++ member (codes "failure_detection_timeout_ms") (signed c.failure_detection_timeout) more
    ++ member (codes "gossip_fanout") (decimal c.gossip_fanout) more
    ++ member (codes "replication_factor") (decimal c.replication_factor) more
    ++ member (codes "prefer_local") (bool_text c.prefer_local) more
    ++ member (codes "virtual_nodes") (decimal c.virtual_nodes) last
    ++ codes "  },\n"

unfoldable pub pool_json : PoolConfig → List ℕ
pool_json p =
    codes "  \"pool\": {\n"
    ++ member (codes "memory_contribution") (decimal p.memory_contribution) more
    ++ member (codes "disk_contribution") (decimal p.disk_contribution) more
    ++ member (codes "accept_remote_reads") (bool_text p.accept_remote_reads) more
    ++ member (codes "accept_remote_writes") (bool_text p.accept_remote_writes) last
    ++ codes "  },\n"

unfoldable pub performance_json : PerformanceConfig → List ℕ
unfolding signed
performance_json p =
    codes "  \"performance\": {\n"
    ++ member (codes "io_threads") (decimal p.io_threads) more
    ++ member (codes "worker_threads") (decimal p.worker_threads) more
    ++ member (codes "max_concurrent_disk_ops") (decimal p.max_concurrent_disk_ops) more
    ++ member (codes "max_concurrent_network_ops") (decimal p.max_concurrent_network_ops) more
    ++ member (codes "prefetch_chunks") (decimal p.prefetch_chunks) more
    ++ member (codes "enable_metrics") (bool_text p.enable_metrics) more
    ++ member (codes "metrics_interval_s") (signed p.metrics_interval) last
    ++ codes "  }\n"

module _ (t : DoubleText) where
  unfoldable pub memory_json : MemoryCacheConfig t → List ℕ
  memory_json m =
      codes "  \"memory\": {\n"
      ++ member (codes "max_size") (decimal m.max_size) more
      ++ member (codes "arc_ghost_size") (decimal m.arc_ghost_size) more
      ++ member (codes "high_watermark") (t.print m.high_watermark) more
      ++ member (codes "low_watermark") (t.print m.low_watermark) last
      ++ codes "  },\n"

  unfoldable pub disk_json : DiskCacheConfig t → List ℕ
  disk_json d =
      codes "  \"disk\": {\n"
      ++ member (codes "path") (text d.path) more
      ++ member (codes "max_size") (decimal d.max_size) more
      ++ member (codes "use_direct_io") (bool_text d.use_direct_io) more
      ++ member (codes "use_fallocate") (bool_text d.use_fallocate) more
      ++ member (codes "high_watermark") (t.print d.high_watermark) more
      ++ member (codes "low_watermark") (t.print d.low_watermark) last
      ++ codes "  },\n"

  unfoldable pub to_json : Config t → List ℕ
  unfolding memory_json disk_json network_json cluster_json pool_json performance_json
  to_json config =
      codes "{\n"
      ++ codes "  \"node_name\": "
      ++ text config.node_name
      ++ more
      ++ memory_json config.memory
      ++ disk_json config.disk
      ++ network_json config.network
      ++ cluster_json config.cluster
      ++ pool_json config.pool
      ++ performance_json config.perf
      ++ codes "}\n"
