-- ===== src/Config.antt =====
-- `Config` (include/elcache/config.hpp, src/core/config.cpp): its records, reading it from JSON and
-- writing it, and its validation. Sizes, counts and times are the bits of 64-bit words. `double` is a
-- parameter. The text of a file is an argument: opening, reading and writing files is left out.
use el_cache.Common.{
  ℕ, ◌*◌, ◌%◌, ◌^◌, Bool, true, false, ◌||◌, ◌&&◌, Option, none, some, List, [], ◌∷◌, ◌++◌, ◌==◌,
  leb, ◌-◌, if◌then◌else◌,
}
use el_cache.Memory.{ErrorCode, ok, invalid_argument}
use el_cache.Text.{codes, is_empty, decimal, minus}
use el_cache.Config.Json.{get_string, get_int, get_double, get_bool, get_string_array, get_object}
pub mod Json
pub mod Printing
pub mod Objects
pub mod Pool
mod Tests

-- `double`: comparison, `std::stod`, `<<`, and a constant in hundredths.
pub record DoubleText : Type 1 where
  pub Double : Type 0
  pub less_equal : Double → Double → Bool
  pub stod : List ℕ → Option Double
  pub print : Double → List ℕ
  pub hundredths : ℕ → Double

pub record NetworkConfig : Type 0 where
  pub bind_address : List ℕ
  pub cluster_port : ℕ
  pub http_port : ℕ
  pub sdk_port : ℕ
  pub unix_socket_path : List ℕ
  pub shm_path : List ℕ
  pub shm_size : ℕ
  pub max_connections : ℕ

pub record ClusterConfig : Type 0 where
  pub cluster_name : List ℕ
  pub seed_nodes : List (List ℕ)
  pub gossip_interval : ℕ
  pub failure_detection_timeout : ℕ
  pub gossip_fanout : ℕ
  pub replication_factor : ℕ
  pub prefer_local : Bool
  pub virtual_nodes : ℕ

pub record PoolConfig : Type 0 where
  pub memory_contribution : ℕ
  pub disk_contribution : ℕ
  pub accept_remote_reads : Bool
  pub accept_remote_writes : Bool

pub record PerformanceConfig : Type 0 where
  pub io_threads : ℕ
  pub worker_threads : ℕ
  pub max_concurrent_disk_ops : ℕ
  pub max_concurrent_network_ops : ℕ
  pub prefetch_chunks : ℕ
  pub enable_metrics : Bool
  pub metrics_interval : ℕ

infixl 5 ◌>>=◌
abbrev ◌>>=◌ : {A B : Type 0} → Option A → (A → Option B) → Option B
none >>= f = none
some a >>= f = f a

-- A `uint16_t` from an `int64_t`.
abbrev port : ℕ → ℕ
port n = n % 2 ^ 16

unfoldable pub load_network : List ℕ → Option NetworkConfig
unfolding get_string get_int
load_network net = do
  cluster_port ← get_int (codes "cluster_port") 7890 net
  http_port ← get_int (codes "http_port") 8080 net
  sdk_port ← get_int (codes "sdk_port") 7891 net
  shm_size ← get_int (codes "shm_size") (256 * 1024 * 1024) net
  max_connections ← get_int (codes "max_connections") 10000 net
  some (record {
    bind_address = get_string (codes "bind_address") (codes "0.0.0.0") net;
    cluster_port = port cluster_port;
    http_port = port http_port;
    sdk_port = port sdk_port;
    unix_socket_path =
        get_string (codes "unix_socket_path") (codes "/var/run/elcache/elcache.sock") net;
    shm_path = get_string (codes "shm_path") (codes "/elcache_shm") net;
    shm_size = shm_size;
    max_connections = max_connections;
  })

unfoldable pub load_cluster : List ℕ → Option ClusterConfig
unfolding get_string get_int get_bool get_string_array
load_cluster cluster = do
  gossip_interval ← get_int (codes "gossip_interval_ms") 1000 cluster
  timeout ← get_int (codes "failure_detection_timeout_ms") 10000 cluster
  gossip_fanout ← get_int (codes "gossip_fanout") 3 cluster
  replication_factor ← get_int (codes "replication_factor") 2 cluster
  virtual_nodes ← get_int (codes "virtual_nodes") 150 cluster
  some (record {
    cluster_name = get_string (codes "cluster_name") (codes "elcache") cluster;
    seed_nodes = get_string_array (codes "seed_nodes") cluster;
    gossip_interval = gossip_interval;
    failure_detection_timeout = timeout;
    gossip_fanout = gossip_fanout;
    replication_factor = replication_factor;
    prefer_local = get_bool (codes "prefer_local") true cluster;
    virtual_nodes = virtual_nodes;
  })

unfoldable pub load_pool : List ℕ → Option PoolConfig
unfolding get_int get_bool
load_pool pool = do
  memory_contribution ← get_int (codes "memory_contribution") 0 pool
  disk_contribution ← get_int (codes "disk_contribution") 0 pool
  some (record {
    memory_contribution = memory_contribution;
    disk_contribution = disk_contribution;
    accept_remote_reads = get_bool (codes "accept_remote_reads") true pool;
    accept_remote_writes = get_bool (codes "accept_remote_writes") true pool;
  })

-- `metrics_interval` keeps its initial value of 60 seconds.
unfoldable pub load_performance : List ℕ → Option PerformanceConfig
unfolding get_int get_bool
load_performance perf = do
  io_threads ← get_int (codes "io_threads") 0 perf
  worker_threads ← get_int (codes "worker_threads") 0 perf
  disk_ops ← get_int (codes "max_concurrent_disk_ops") 64 perf
  network_ops ← get_int (codes "max_concurrent_network_ops") 256 perf
  prefetch_chunks ← get_int (codes "prefetch_chunks") 2 perf
  some (record {
    io_threads = io_threads;
    worker_threads = worker_threads;
    max_concurrent_disk_ops = disk_ops;
    max_concurrent_network_ops = network_ops;
    prefetch_chunks = prefetch_chunks;
    enable_metrics = get_bool (codes "enable_metrics") true perf;
    metrics_interval = 60;
  })

module _ (t : DoubleText) where
  pub record MemoryCacheConfig : Type 0 where
    pub max_size : ℕ
    pub arc_ghost_size : ℕ
    pub high_watermark : t.Double
    pub low_watermark : t.Double

  pub record DiskCacheConfig : Type 0 where
    pub path : List ℕ
    pub max_size : ℕ
    pub use_direct_io : Bool
    pub use_fallocate : Bool
    pub high_watermark : t.Double
    pub low_watermark : t.Double

  -- `Config`, without the settings that no file holds.
  pub record Config : Type 0 where
    pub node_name : List ℕ
    pub memory : MemoryCacheConfig
    pub disk : DiskCacheConfig
    pub network : NetworkConfig
    pub cluster : ClusterConfig
    pub pool : PoolConfig
    pub perf : PerformanceConfig

  unfoldable pub load_memory : List ℕ → Option MemoryCacheConfig
  unfolding get_int get_double
  load_memory mem = do
    max_size ← get_int (codes "max_size") (1024 * 1024 * 1024) mem
    arc_ghost_size ← get_int (codes "arc_ghost_size") 0 mem
    high ← get_double t.stod (codes "high_watermark") (t.hundredths 95) mem
    low ← get_double t.stod (codes "low_watermark") (t.hundredths 85) mem
    some (record {
      max_size = max_size;
      arc_ghost_size = arc_ghost_size;
      high_watermark = high;
      low_watermark = low;
    })

  unfoldable pub load_disk : List ℕ → Option DiskCacheConfig
  unfolding get_string get_int get_bool get_double
  load_disk disk = do
    let disk_path : List ℕ = get_string (codes "path") [] disk
    max_size ← get_int (codes "max_size") (100 * 1024 * 1024 * 1024) disk
    high ← get_double t.stod (codes "high_watermark") (t.hundredths 90) disk
    low ← get_double t.stod (codes "low_watermark") (t.hundredths 80) disk
    some (record {
      path = if is_empty disk_path then codes "/var/cache/elcache" else disk_path;
      max_size = max_size;
      use_direct_io = get_bool (codes "use_direct_io") true disk;
      use_fallocate = get_bool (codes "use_fallocate") true disk;
      high_watermark = high;
      low_watermark = low;
    })

  unfoldable pub load_json : List ℕ → Option Config
  unfolding get_string get_object load_memory load_disk load_network load_cluster load_pool
      load_performance
  load_json j = do
    memory ← load_memory (get_object (codes "memory") j)
    disk ← load_disk (get_object (codes "disk") j)
    network ← load_network (get_object (codes "network") j)
    cluster ← load_cluster (get_object (codes "cluster") j)
    pool ← load_pool (get_object (codes "pool") j)
    perf ← load_performance (get_object (codes "performance") j)
    some (record {
      node_name = get_string (codes "node_name") [] j;
      memory = memory;
      disk = disk;
      network = network;
      cluster = cluster;
      pool = pool;
      perf = perf;
    })

  unfoldable pub validate : Config → ErrorCode
  validate config =
      let net : NetworkConfig = config.network in
      if (config.memory.max_size == 0) && (config.disk.max_size == 0)
      then invalid_argument
      else if t.less_equal config.memory.high_watermark config.memory.low_watermark
      then invalid_argument
      else if t.less_equal config.disk.high_watermark config.disk.low_watermark
      then invalid_argument
      else if (net.http_port == net.cluster_port)
          || (net.http_port == net.sdk_port)
          || (net.cluster_port == net.sdk_port)
      then invalid_argument
      else if config.cluster.replication_factor == 0
      then invalid_argument
      else ok
