-- ===== src/Coordinator/Stats.antt =====
-- `ICache::Stats` (include/elcache/cache.hpp) and `CacheCoordinator::stats`
-- (src/cache/cache_coordinator.cpp): the counters of the two layers, added up. Partial hits are counted
-- for the memory cache alone.
use el_cache.Common.{ℕ, Option, none, some, add64}

pub record CacheStats : Type 0 where
  pub hits : ℕ
  pub misses : ℕ
  pub partial_hits : ℕ
  pub bytes_read : ℕ
  pub bytes_written : ℕ
  pub evictions : ℕ
  pub entry_count : ℕ
  pub size_bytes : ℕ
  pub capacity_bytes : ℕ

abbrev pub no_stats : CacheStats
no_stats = record {
  hits = 0;
  misses = 0;
  partial_hits = 0;
  bytes_read = 0;
  bytes_written = 0;
  evictions = 0;
  entry_count = 0;
  size_bytes = 0;
  capacity_bytes = 0;
}

unfoldable pub add_memory : Option CacheStats → CacheStats → CacheStats
unfolding add64
add_memory none t = t
add_memory (some s) t = record {
  hits = add64 t.hits s.hits;
  misses = add64 t.misses s.misses;
  partial_hits = add64 t.partial_hits s.partial_hits;
  bytes_read = add64 t.bytes_read s.bytes_read;
  bytes_written = add64 t.bytes_written s.bytes_written;
  evictions = add64 t.evictions s.evictions;
  entry_count = add64 t.entry_count s.entry_count;
  size_bytes = add64 t.size_bytes s.size_bytes;
  capacity_bytes = add64 t.capacity_bytes s.capacity_bytes;
}

unfoldable pub add_disk : Option CacheStats → CacheStats → CacheStats
unfolding add64
add_disk none t = t
add_disk (some s) t = record t {
  hits = add64 t.hits s.hits;
  misses = add64 t.misses s.misses;
  bytes_read = add64 t.bytes_read s.bytes_read;
  bytes_written = add64 t.bytes_written s.bytes_written;
  evictions = add64 t.evictions s.evictions;
  entry_count = add64 t.entry_count s.entry_count;
  size_bytes = add64 t.size_bytes s.size_bytes;
  capacity_bytes = add64 t.capacity_bytes s.capacity_bytes;
}

unfoldable pub stats : Option CacheStats → Option CacheStats → CacheStats
unfolding add_memory add_disk
stats memory disk = add_disk disk (add_memory memory no_stats)
