-- ===== src/Http/Options.antt =====
-- What the handlers read from a request, and the responses they build (src/http/http_api.cpp).
use el_cache.Common.{
  ℕ, ◌+◌, Bool, true, false, ◌||◌, Option, none, some, List, ◌++◌, if◌then◌else◌, length, take,
  drop, u32_mod, ◌%◌, ◌^◌, ◌-◌,
}
use el_cache.Range.{Range}
use el_cache.Memory.{ReadResult, CacheMetadata, hit, miss, partial_hit}
use el_cache.Coordinator.{WriteOptions, DeleteOptions, is_partial}
use el_cache.Coordinator.Stats.{CacheStats}
use el_cache.Cluster.{Stats}
use el_cache.Text.{codes, same_text, is_empty, find_char, find_text, stoull, stoll, decimal, minus}
use el_cache.Http.{
  HttpRequest, HttpResponse, header, with_header, set_content_type, set_content_length, ok,
  partial_content, not_found,
}

-- `?range=offset-length` over what the header asked for.
unfoldable pub query_range : List ℕ → Option Range → Option (Option Range)
unfolding find_text find_char stoull
query_range query otherwise = elim (find_text (codes "range=") query) [
  | none ↦ some otherwise
  | some i ↦
      let range_str : List ℕ = drop (i + 6) query in
      elim (find_char minus range_str) [
        | none ↦ some otherwise
        | some dash ↦ elim (stoull (take dash range_str)) [
          | none ↦ none
          | some offset ↦ elim (stoull (drop (dash + 1) range_str)) [
            | none ↦ none
            | some len ↦ some (some (record { offset = offset; length = len }))
          ]
        ]
      ]
]

-- The headers that name the value's size and its chunks.
unfoldable pub with_metadata : Option CacheMetadata → HttpResponse → HttpResponse
unfolding with_header decimal
with_metadata none resp = resp
with_metadata (some meta) resp =
    with_header (codes "X-ElCache-Chunks") (decimal meta.chunk_count)
      (with_header (codes "X-ElCache-Size") (decimal meta.total_size) resp)

abbrev pub hit_source : ReadResult → List ℕ
hit_source r = elim r.result [
  | hit ↦ codes "hit"
  | partial_hit ↦ codes "partial"
  | _ ↦ codes "miss"
]

abbrev pub is_some : {A : Type 0} → Option A → Bool
is_some o = elim o [ none ↦ false | some a ↦ true ]

-- The response to a read that is no miss.
unfoldable pub read_response : Option Range → ReadResult → HttpResponse
unfolding partial_content ok with_header with_metadata set_content_type set_content_length
read_response range r =
    let total : ℕ = elim r.metadata [ some meta ↦ meta.total_size | none ↦ length r.data_bytes ] in
    let resp : HttpResponse =
      if is_partial r || is_some range
      then partial_content r.data_bytes r.actual_range total
      else ok r.data_bytes in
    set_content_length (length r.data_bytes) (
      set_content_type (codes "application/octet-stream")
        (with_metadata r.metadata (with_header (codes "X-ElCache-Hit") (hit_source r) resp)))

unfoldable pub read_reply : Option Range → ReadResult → HttpResponse
read_reply range r = elim r.result [
  | miss ↦ not_found (codes "Key not found")
  | _ ↦ read_response range r
]

-- `X-ElCache-TTL`, an `int64_t` of seconds as its 64-bit word.
unfoldable pub ttl_option : HttpRequest → Option (Option ℕ)
unfolding header stoll
ttl_option req =
    let ttl_header : List ℕ = header req (codes "X-ElCache-TTL") in
    if is_empty ttl_header then some none else elim (stoll ttl_header) [
      | none ↦ none
      | some (negative, n) ↦ some (some (if negative then (2 ^ 64 - n) % 2 ^ 64 else n))
    ]

-- `X-ElCache-Flags`, a `uint32_t` from `std::stoul`.
unfoldable pub flags_option : HttpRequest → Option ℕ
unfolding header stoull
flags_option req =
    let flags_header : List ℕ = header req (codes "X-ElCache-Flags") in
    if is_empty flags_header
    then some 0
    else elim (stoull flags_header) [ none ↦ none | some n ↦ some (n % u32_mod) ]

unfoldable pub write_options : HttpRequest → Option WriteOptions
unfolding ttl_option flags_option header same_text
write_options req = elim (ttl_option req) [
  | none ↦ none
  | some ttl ↦ elim (flags_option req) [
    | none ↦ none
    | some flags ↦ some (record {
      ttl = ttl;
      flags = flags;
      no_memory = same_text (header req (codes "X-ElCache-No-Memory")) (codes "true");
      no_disk = same_text (header req (codes "X-ElCache-No-Disk")) (codes "true");
      no_cluster = same_text (header req (codes "X-ElCache-No-Cluster")) (codes "true");
    })
  ]
]

abbrev pub default_delete : DeleteOptions
default_delete = record { from_memory = true; from_disk = true; from_cluster = true }

-- A member of a JSON object, with what ends its line.
abbrev pub json_member : List ℕ → List ℕ → List ℕ → List ℕ
json_member name value line_end = codes "  \"" ++ name ++ codes "\": " ++ value ++ line_end

abbrev pub json_body : List ℕ → HttpResponse
unfolding ok set_content_type
json_body text = set_content_type (codes "application/json") (ok text)

unfoldable pub stats_json : CacheStats → List ℕ → List ℕ
unfolding decimal
stats_json s hit_rate =
    codes "{\n"
    ++ json_member (codes "hits") (decimal s.hits) (codes ",\n")
    ++ json_member (codes "misses") (decimal s.misses) (codes ",\n")
    ++ json_member (codes "partial_hits") (decimal s.partial_hits) (codes ",\n")
    ++ json_member (codes "bytes_read") (decimal s.bytes_read) (codes ",\n")
    ++ json_member (codes "bytes_written") (decimal s.bytes_written) (codes ",\n")
    ++ json_member (codes "evictions") (decimal s.evictions) (codes ",\n")
    ++ json_member (codes "entry_count") (decimal s.entry_count) (codes ",\n")
    ++ json_member (codes "size_bytes") (decimal s.size_bytes) (codes ",\n")
    ++ json_member (codes "capacity_bytes") (decimal s.capacity_bytes) (codes ",\n")
    ++ json_member (codes "hit_rate_percent") hit_rate (codes "\n")
    ++ codes "}\n"

unfoldable pub cluster_json : Stats → List ℕ
unfolding decimal
cluster_json s =
    codes "{\n"
    ++ json_member (codes "mode") (codes "\"cluster\"") (codes ",\n")
    ++ json_member (codes "total_nodes") (decimal s.total_nodes) (codes ",\n")
    ++ json_member (codes "active_nodes") (decimal s.active) (codes ",\n")
    ++ json_member (codes "total_memory_capacity") (decimal s.total_memory_capacity) (codes ",\n")
    ++ json_member (codes "total_disk_capacity") (decimal s.total_disk_capacity) (codes ",\n")
    ++ json_member (codes "total_memory_used") (decimal s.total_memory_used) (codes ",\n")
    ++ json_member (codes "total_disk_used") (decimal s.total_disk_used) (codes "\n")
    ++ codes "}\n"
