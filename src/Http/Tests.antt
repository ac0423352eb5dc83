-- ===== src/Http/Tests.antt =====
-- Examples for the HTTP handlers, over a memory cache alone.
use mathlib.Core.List.{List-discrete}
use mathlib.Core.Logic.{if_pos}
use el_cache.Common.{
  ℕ, ◌+◌, ◌-◌, ◌/◌, ◌≡◌, refl, true, false, none, some, List, [], ◌∷◌, ◌++◌, ltb, leb, ℕ_discrete,
  ◌^◌, ◌*◌, length, arith, take, drop,
}
use el_cache.Arc.{Doubles}
use el_cache.Arc
use el_cache.Arc.Invariant.{init-IsValid}
use el_cache.Memory.{MemoryCache, missed, miss}
use el_cache.Coordinator.{Layer, Remote, unavailable, put, put_memory, put_disk}
use el_cache.Coordinator.Layers.{memory_layer}
use el_cache.Coordinator.Stats.{no_stats}
use el_cache.Cluster.{Stats}
use el_cache.Sparse
use el_cache.Sparse.{SparseEntry, is_complete}
use el_cache.Text.{codes, decimal, stoull, substr}
use el_cache.Http.{
  HttpRequest, HttpResponse, header, parse_range_header, content_range, find_header, internal_error,
}
use el_cache.Http.Ranges.{from_to, spec_text, meaning, parse_range_header-spec_text}
use el_cache.Http.Options.{write_options, ttl_option}
use el_cache.Http.Handlers.{Outside, respond, Server, handle_get, handle_put}
use el_cache.Http.SparseHandlers.{finalize_key, handle_sparse_finalize}
use el_cache.Http.Router.{Context, delete, run, sparse_abort}
use el_cache.Http.Written.{server_at}
use el_cache.Http.PutGet.{handle_get-handle_put_range}
use el_cache.Http.Finalize.{handle_get-handle_sparse_finalize, handle_sparse_finalize-loses}
use el_cache.Http.Effects.{run-cache}

stoull_signs : (stoull (codes " -1;") ≡ some (2 ^ 64 - 1)) × (stoull (codes "x") ≡ none)
unfolding stoull
stoull_signs = (refl, refl)

abbrev doubles : Doubles
doubles = record {
  Double = ℕ;
  zero_point = 0;
  one = 1;
  add = λ a b. a + b;
  sub = λ a b. a - b;
  ratio = λ a b. a / b;
  of_size = λ n. n;
  to_size = λ a. a;
  less = ltb;
}

abbrev same_bytes : Discrete (List ℕ)
same_bytes = List-discrete ℕ_discrete

abbrev memory : Layer (List ℕ)
memory = memory_layer same_bytes doubles same_bytes (λ bytes. bytes) length

abbrev no_cluster : Remote (List ℕ)
no_cluster = record {
  State = ℕ;
  local_node = λ x. 1;
  nodes_for_key = λ x key. [];
  remote_get = λ x n key opts. (x, missed miss);
  remote_put = λ x n key value opts. x;
  remote_delete = λ x n key. x;
  remote_check = λ x n key range. (x, unavailable);
}

abbrev no_nodes : Stats
no_nodes = record {
  total_nodes = 0;
  active = 0;
  total_memory_capacity = 0;
  total_disk_capacity = 0;
  total_memory_used = 0;
  total_disk_used = 0;
}

abbrev outside : Outside memory memory no_cluster
outside = record {
  Double = ℕ;
  zero_percent = 0;
  full_percent = 100;
  percent = λ a b. 100 * a / b;
  at_least = λ a b. leb b a;
  to_string = decimal;
  streamed = decimal;
  message = λ e. [];
  Metrics = ℕ;
  collect = λ x. x + 1;
  export_json = λ x. [];
  export_prometheus = λ x. [];
  memory_stats = λ x. no_stats;
  disk_stats = λ x. no_stats;
  cluster_stats = λ x. no_nodes;
}

abbrev empty_cache : MemoryCache (List ℕ) (List ℕ) ℕ
empty_cache = record {
  chunk_cache = Arc.init doubles 100;
  descriptors = [];
  hits = 0;
  misses = 0;
  partial_hits = 0;
  bytes_read = 0;
  bytes_written = 0;
  evictions = 0;
}

abbrev five_bytes : List ℕ
five_bytes = 4 ∷ 8 ∷ 15 ∷ 16 ∷ 23 ∷ []

abbrev complete_entry : SparseEntry
complete_entry = record {
  total_size = 2;
  data_bytes = 8 ∷ 15 ∷ [];
  written = true ∷ true ∷ [];
  finalized = false;
}

abbrev server : Server outside
server = record {
  cache = record {
    memory = some (10, empty_cache);
    disk = none;
    cluster = none;
    prefer_local = true;
    has_seeds = false;
  };
  sparse = (codes "b", complete_entry) ∷ [];
  metrics = none;
}

abbrev put_request : HttpRequest
put_request = record {
  method = codes "PUT";
  path = codes "/cache/a";
  query = [];
  headers = (codes "x-elcache-ttl", codes "5") ∷ [];
  body = five_bytes;
}

abbrev get_request : HttpRequest
get_request = record {
  method = codes "GET";
  path = codes "/cache/a";
  query = [];
  headers = (codes "range", codes "bytes=1-2") ∷ [];
  body = [];
}

abbrev suffix_request : HttpRequest
suffix_request = record get_request { headers = (codes "Range", codes "bytes=-500") ∷ [] }

abbrev finalize_request : HttpRequest
finalize_request = record {
  method = codes "POST";
  path = codes "/sparse/b/finalize";
  query = [];
  headers = [];
  body = [];
}

abbrev get_finalized : HttpRequest
get_finalized = record get_request { path = codes "/cache/b"; headers = [] }

found : Sparse.find same_bytes (codes "b") server.sparse ≡ some complete_entry
unfolding Sparse.find
found = if_pos (same_bytes (codes "b") (codes "b")) refl (some complete_entry) none

-- A memory cache whose capacity is too small takes the bytes all the same; without any layer there is
-- nothing that takes them.
abbrev no_layers : Server outside
no_layers = record server { cache = record server.cache { memory = none } }

abbrev abort_context : Context
abort_context = record {
  method = delete;
  path = codes "/sparse/b";
  query = [];
  headers = [];
  body = [];
}

parse_range_header-spec_text_example :
    parse_range_header get_request 5 ≡ some (meaning (from_to 1 2) 5)
unfolding spec_text header decimal
parse_range_header-spec_text_example =
    parse_range_header-spec_text get_request (from_to 1 2) 5 refl (omega arith, omega arith)
      (omega arith)

handle_get-handle_put_range_example :
    (y : ℕ × MemoryCache (List ℕ) (List ℕ) ℕ) × (resp : HttpResponse) × ((handle_put outside server
        put_request).0.cache.memory
      ≡ some y)
    × ((handle_get outside
          (server_at same_bytes doubles same_bytes
            (λ bytes. bytes)
            outside
            12
            (handle_put outside server put_request).0
            y)
          get_request).1
        ≡ respond resp)
    × (resp.status_code ≡ 206)
    × (resp.body
        ≡ take (meaning (from_to 1 2) 5).length (drop (meaning (from_to 1 2) 5).offset five_bytes))
    × (find_header (codes "Content-Range") resp.headers
        ≡ some (content_range (meaning (from_to 1 2) 5) 5))
unfolding write_options spec_text header decimal substr
handle_get-handle_put_range_example =
    handle_get-handle_put_range same_bytes doubles same_bytes (λ bytes. bytes) outside server 10
      empty_cache put_request get_request (codes "a")
      (record { ttl = some 5; flags = 0; no_memory = false; no_disk = false; no_cluster = false })
      12 (from_to 1 2) refl refl refl refl (omega arith) (omega arith) refl refl (omega arith)
      (init-IsValid doubles same_bytes 100) (omega arith) refl refl (omega arith, omega arith)

handle_get-handle_sparse_finalize_example :
    (y : ℕ × MemoryCache (List ℕ) (List ℕ) ℕ) × (resp : HttpResponse) × ((handle_sparse_finalize
        outside same_bytes server finalize_request).0.cache.memory
      ≡ some y)
    × ((handle_get outside
          (server_at same_bytes doubles same_bytes
            (λ bytes. bytes)
            outside
            12
            (handle_sparse_finalize outside same_bytes server finalize_request).0
            y)
          get_finalized).1
        ≡ respond resp)
    × (resp.status_code ≡ 200)
    × (resp.body ≡ 8 ∷ 15 ∷ [])
unfolding finalize_key header substr ttl_option Sparse.find is_complete
handle_get-handle_sparse_finalize_example =
    handle_get-handle_sparse_finalize same_bytes doubles same_bytes (λ bytes. bytes) outside server
      10 empty_cache finalize_request get_finalized (codes "b") complete_entry none 12 refl refl
      refl refl (omega arith) (omega arith) found refl refl (omega arith) (omega arith)
      (init-IsValid doubles same_bytes 100) tt refl refl

handle_sparse_finalize-loses_example :
    ((handle_sparse_finalize outside same_bytes no_layers finalize_request).1
      ≡ respond (internal_error (codes "Failed to store finalized data: " ++ [])))
    × (Sparse.find same_bytes
          (codes "b")
          (handle_sparse_finalize outside same_bytes no_layers finalize_request).0.sparse
        ≡ none)
unfolding finalize_key header substr ttl_option Sparse.find is_complete put put_memory put_disk
handle_sparse_finalize-loses_example =
    handle_sparse_finalize-loses outside same_bytes no_layers finalize_request (codes "b")
      complete_entry none refl (omega arith) found refl (refl, tt) refl refl

run-cache_example :
    (run outside same_bytes sparse_abort server abort_context).0.cache ≡ server.cache
run-cache_example = run-cache outside same_bytes sparse_abort server abort_context refl
