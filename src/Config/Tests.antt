-- ===== src/Config/Tests.antt =====
-- Examples for the configuration.
use el_cache.Common.{◌≡◌, refl, true, false, ◌||◌, some, ◌^◌, ◌-◌, [], ◌∷◌, ◌++◌, arith}
use el_cache.Text.{codes}
use el_cache.Config.{PoolConfig, load_pool}
use el_cache.Config.Json.{get_int, get_string_array, get_object}
use el_cache.Config.Printing.{pool_json, seeds_json}
use el_cache.Config.Pool.{load_pool-pool_json}

-- A minus sign is kept in the bits of the word.
negative_int : get_int (codes "a") 7 (codes "{\"b\": 1, \"a\": -1}") ≡ some (2 ^ 64 - 1)
unfolding get_int
negative_int = refl

seeds_back :
    get_string_array
      (codes "seed_nodes")
      (codes "{\"seed_nodes\": [" ++ seeds_json (codes "a:1" ∷ codes "b:2" ∷ []) ++ codes "]}")
    ≡ codes "a:1" ∷ codes "b:2" ∷ []
unfolding get_string_array seeds_json
seeds_back = refl

abbrev write_only : PoolConfig
write_only = record {
  memory_contribution = 4096;
  disk_contribution = 0;
  accept_remote_reads = false;
  accept_remote_writes = true;
}

load_pool-pool_json_example :
    load_pool (get_object (codes "pool") (pool_json write_only))
    ≡ some (record write_only { accept_remote_reads = false || true })
load_pool-pool_json_example = load_pool-pool_json write_only (omega arith) (omega arith)
