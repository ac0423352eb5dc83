-- ===== src/Coordinator/Tests.antt =====
-- Examples for the coordinator, over two memory caches and a cluster of two nodes.
use el_cache.Common.{
  ℕ, suc, ◌+◌, ◌-◌, ◌/◌, ◌≡◌, ◌↔◌, ◌≤◌, ◌<◌, refl, List, [], ◌∷◌, true, false, none, some, arith,
  ltb, length, ℕ_discrete,
}
use el_cache.Range.{chunk_size}
use el_cache.Arc.{Doubles}
use el_cache.Arc
use el_cache.Arc.Invariant.{init-IsValid}
use el_cache.Memory
use el_cache.Memory.{
  MemoryCache, ReadOptions, ReadResult, CacheMetadata, hit, missed, miss, ok, requested,
}
use el_cache.Memory.Get.{slice_of}
use el_cache.Memory.PutGet.{metadata_of}
use el_cache.Memory.Split.{joined}
use el_cache.Coordinator.{
  Layer, Remote, Coordinator, WriteOptions, DeleteOptions, unavailable, get, put, remove,
}
use el_cache.Coordinator.Layers.{memory_layer, memory_layer-Forgets}
use el_cache.Coordinator.Reads.{get-remove}
use el_cache.Coordinator.Values.{at_time, get-put_through, get-get_range}
use el_cache.Coordinator.Streams.{
  new_stream, write, write_all, finish, finish-write_all, ReadStream, read_all, eof, total,
  read_all-slice,
}

abbrev counts : Doubles
counts = record {
  Double = ℕ;
  zero_point = 0;
  one = 1;
  add = λ a b. a + b;
  sub = λ a b. a - b;
  ratio = λ a b. a / b;
  of_size = λ n. n;
  to_size = λ a. a;
  less = ltb;
}

abbrev sum : List ℕ → ℕ
sum [] = 0
sum (b ∷ bs) = b + sum bs

abbrev key_size : ℕ → ℕ
key_size k = 3

abbrev empty_cache : MemoryCache ℕ ℕ ℕ
empty_cache = record {
  chunk_cache = Arc.init counts 100;
  descriptors = [];
  hits = 0;
  misses = 0;
  partial_hits = 0;
  bytes_read = 0;
  bytes_written = 0;
  evictions = 0;
}

abbrev memory : Layer ℕ
memory = memory_layer ℕ_discrete counts ℕ_discrete sum key_size

-- Node 1 is the local one; node 2 answers each read with the two bytes of a range.
abbrev two_bytes : ReadResult
two_bytes = record {
  result = hit;
  data_bytes = 8 ∷ 15 ∷ [];
  actual_range = record { offset = 1; length = 2 };
  metadata = none;
}

abbrev pair : Remote ℕ
pair = record {
  State = ℕ;
  local_node = λ x. 1;
  nodes_for_key = λ x key. 2 ∷ 1 ∷ [];
  remote_get = λ x n key opts. (suc x, two_bytes);
  remote_put = λ x n key value opts. suc x;
  remote_delete = λ x n key. suc x;
  remote_check = λ x n key range. (suc x, unavailable);
}

abbrev middle : ReadOptions
middle = record { allow_partial = false; range = some (record { offset = 1; length = 2 }) }

abbrev whole : ReadOptions
whole = record { allow_partial = true; range = none }

abbrev both_layers : Coordinator memory memory pair
both_layers = record {
  memory = some (10, empty_cache);
  disk = some (10, empty_cache);
  cluster = none;
  prefer_local = true;
  has_seeds = false;
}

abbrev in_cluster : Coordinator memory memory pair
in_cluster = record {
  memory = some (10, empty_cache);
  disk = none;
  cluster = some 0;
  prefer_local = true;
  has_seeds = true;
}

abbrev everywhere : WriteOptions
everywhere = record {
  ttl = some 5;
  flags = 0;
  no_memory = false;
  no_disk = false;
  no_cluster = false;
}

abbrev from_all : DeleteOptions
from_all = record { from_memory = true; from_disk = true; from_cluster = true }

get-remove_example :
    (get memory memory pair (remove memory memory pair both_layers 7 from_all).0 7 whole).1
    ≡ missed miss
get-remove_example =
    get-remove memory memory pair both_layers 7 from_all whole
      (memory_layer-Forgets ℕ_discrete counts ℕ_discrete sum key_size)
      (memory_layer-Forgets ℕ_discrete counts ℕ_discrete sum key_size) refl refl refl

abbrev five_bytes : List ℕ
five_bytes = 4 ∷ 8 ∷ 15 ∷ 16 ∷ 23 ∷ []

get-put_through_example :
    (y : ℕ × MemoryCache ℕ ℕ ℕ) × ((put memory memory pair both_layers 7 five_bytes
        everywhere).0.memory
      ≡ some y)
    × ((get memory memory pair
          (at_time ℕ_discrete counts ℕ_discrete sum key_size memory pair 12
            (put memory memory pair both_layers 7 five_bytes everywhere).0
            y)
          7
          middle).1
        ≡ slice_of five_bytes
            (record { offset = 1; length = 2 })
            (metadata_of 10 five_bytes (some 5) 0))
unfolding requested
get-put_through_example =
    get-put_through ℕ_discrete counts ℕ_discrete sum key_size memory pair both_layers 10 empty_cache
      7 five_bytes everywhere 12 middle refl refl refl (omega arith) (omega arith)
      (init-IsValid counts ℕ_discrete 100) (omega arith) (omega arith) (omega arith)

get-get_range_example :
    ((get memory memory pair in_cluster 7 middle).1 ≡ two_bytes)
    × (z : ℕ × MemoryCache ℕ ℕ ℕ) × ((get memory memory pair in_cluster 7 middle).0.memory ≡ some z)
    × ((get memory memory pair
          (at_time ℕ_discrete counts ℕ_discrete sum key_size memory pair 12
            (get memory memory pair in_cluster 7 middle).0
            z)
          7
          whole).1.result
        ≡ hit)
    × ((get memory memory pair
          (at_time ℕ_discrete counts ℕ_discrete sum key_size memory pair 12
            (get memory memory pair in_cluster 7 middle).0
            z)
          7
          whole).1.data_bytes
        ≡ 8 ∷ 15 ∷ [])
unfolding Memory.get_descriptor
get-get_range_example =
    get-get_range ℕ_discrete counts ℕ_discrete sum key_size memory pair in_cluster 10 empty_cache 0
      2 (1 ∷ []) 7 middle 12 whole refl refl refl refl refl refl refl (omega arith) refl
      (omega arith) (omega arith) (omega arith) (init-IsValid counts ℕ_discrete 100) refl

finish-write_all_example :
    ((finish (write_all new_stream ((4 ∷ 8 ∷ []) ∷ (15 ∷ []) ∷ []))).1 ≡ 4 ∷ 8 ∷ 15 ∷ [])
    × (length (write (write_all new_stream ((4 ∷ 8 ∷ []) ∷ (15 ∷ []) ∷ [])) (16 ∷ [])).buffer
        < chunk_size)
finish-write_all_example = finish-write_all ((4 ∷ 8 ∷ []) ∷ (15 ∷ []) ∷ []) (16 ∷ [])

abbrev at_second : ReadStream
at_second = record { data_bytes = five_bytes; total_size = 5; position = 1 }

read_all-slice_example :
    (joined (read_all at_second (2 ∷ 9 ∷ [])).1 ≡ 8 ∷ 15 ∷ 16 ∷ 23 ∷ [])
    × ((eof (read_all at_second (2 ∷ 9 ∷ [])).0 ≡ true) ↔ (5 ≤ 1 + total (2 ∷ 9 ∷ [])))
read_all-slice_example = read_all-slice (2 ∷ 9 ∷ []) at_second (omega arith)
