-- ===== src/Coordinator.antt =====
-- `CacheCoordinator` (include/elcache/cache_coordinator.hpp, src/cache/cache_coordinator.cpp): requests
-- across the memory cache, the disk cache and the cluster. The two caches are layers with the operations
-- of `ICache` (include/elcache/cache.hpp); the other nodes answer through `Remote`. The clock belongs to
-- a layer. A coroutine runs as one step.
use el_cache.Common.{
  ℕ, zero, suc, ◌+◌, Bool, true, false, not, ◌&&◌, ◌||◌, Option, none, some, List, [], ◌∷◌, ◌++◌,
  ◌==◌, if◌then◌else◌, length,
}
use el_cache.Range.{Range}
use el_cache.Memory.{
  CacheMetadata, CacheResult, hit, miss, partial_hit, ReadResult, ReadOptions, missed, ErrorCode,
  ok, internal_error,
}
pub mod Streams
pub mod Layers
pub mod Reads
pub mod Values
pub mod Stats
mod Tests

pub record WriteOptions : Type 0 where
  pub ttl : Option ℕ
  pub flags : ℕ
  pub no_memory : Bool
  pub no_disk : Bool
  pub no_cluster : Bool

pub record DeleteOptions : Type 0 where
  pub from_memory : Bool
  pub from_disk : Bool
  pub from_cluster : Bool

-- `AvailabilityResult`
pub record Availability : Type 0 where
  pub exists_there : Bool
  pub metadata : Option CacheMetadata
  pub available_ranges : List Range
  pub missing_ranges : List Range

abbrev pub unavailable : Availability
unavailable = record {
  exists_there = false;
  metadata = none;
  available_ranges = [];
  missing_ranges = [];
}

-- A cache below the coordinator.
pub record Layer (K : Type 0) : Type 1 where
  pub State : Type 0
  pub get : State → K → ReadOptions → State × ReadResult
  pub put : State → K → List ℕ → WriteOptions → State × ErrorCode
  pub remove : State → K → State × ErrorCode
  pub check : State → K → Option Range → Availability
  pub metadata : State → K → Option CacheMetadata

-- The cluster, as the coordinator calls it: the nodes of a key, and the requests to a node.
pub record Remote (K : Type 0) : Type 1 where
  pub State : Type 0
  pub local_node : State → ℕ
  pub nodes_for_key : State → K → List ℕ
  pub remote_get : State → ℕ → K → ReadOptions → State × ReadResult
  pub remote_put : State → ℕ → K → List ℕ → WriteOptions → State
  pub remote_delete : State → ℕ → K → State
  pub remote_check : State → ℕ → K → Option Range → State × Availability

abbrev pub is_hit : ReadResult → Bool
is_hit r = elim r.result [ hit ↦ true | _ ↦ false ]

abbrev pub is_partial : ReadResult → Bool
is_partial r = elim r.result [ partial_hit ↦ true | _ ↦ false ]

-- `result.is_hit()`, or a partial hit where those are allowed.
abbrev pub accepted : ReadOptions → ReadResult → Bool
accepted opts r = is_hit r || (is_partial r && opts.allow_partial)

-- The options of the copy that a fetched value gets in memory.
abbrev pub fetched_options : WriteOptions
fetched_options = record {
  ttl = none;
  flags = 0;
  no_memory = false;
  no_disk = false;
  no_cluster = true;
}

-- What is known after the disk: its result, or its ranges behind those of memory.
abbrev pub merge_disk : Availability → Availability → Availability
merge_disk result disk_result =
    if disk_result.exists_there
    then if result.exists_there
      then record result {
        available_ranges = result.available_ranges ++ disk_result.available_ranges;
      }
      else disk_result
    else result

abbrev pub nothing_missing : Availability → Bool
nothing_missing a = length a.missing_ranges == 0

-- The status `ok` is the one that is true as a condition.
abbrev pub is_ok : ErrorCode → Bool
is_ok e = elim e [ ok ↦ true | _ ↦ false ]

module _ {K : Type 0} (m d : Layer K) (c : Remote K) where
  -- `memory_`, `disk_` and `cluster_`, each of which may be absent, and the configuration.
  pub record Coordinator : Type 0 where
    pub memory : Option m.State
    pub disk : Option d.State
    pub cluster : Option c.State
    pub prefer_local : Bool
    pub has_seeds : Bool

  -- A layer's answer, if the coordinator returns it.
  unfoldable pub try_memory : Coordinator → K → ReadOptions → Coordinator × Option ReadResult
  try_memory s key opts = elim s.memory [
    | none ↦ (s, none)
    | some x ↦
        let (x', r) = m.get x key opts in
        if s.prefer_local
        then (record s { memory = some x' }, if accepted opts r then some r else none)
        else (s, none)
  ]

  unfoldable pub try_disk : Coordinator → K → ReadOptions → Coordinator × Option ReadResult
  try_disk s key opts = elim s.disk [
    | none ↦ (s, none)
    | some x ↦
        let (x', r) = d.get x key opts in
        (record s { disk = some x' }, if accepted opts r then some r else none)
  ]

  -- The copy of a fetched value in memory.
  unfoldable pub keep_fetched : Option m.State → K → ReadResult → Option m.State
  keep_fetched memory key r = elim memory [
    | none ↦ none
    | some x ↦
        if length r.data_bytes == 0
        then some x
        else some (m.put x key r.data_bytes fetched_options).0
  ]

  -- The loop of `fetch_from_cluster` over the nodes, with the last result.
  unfoldable pub fetch_loop :
      List ℕ
      → Option m.State
      → c.State
      → K
      → ReadOptions
      → ReadResult
      → Option m.State × c.State × ReadResult
  fetch_loop [] memory x key opts last = (memory, x, last)
  fetch_loop (n ∷ nodes) memory x key opts last =
      let (x', r) = c.remote_get x n key opts in
      let skipped = fetch_loop nodes memory x key opts last in
      let rest = fetch_loop nodes memory x' key opts r in
      if n == c.local_node x
      then skipped
      else if is_hit r
      then (keep_fetched memory key r, x', r)
      else if is_partial r && opts.allow_partial
      then (memory, x', r)
      else rest

  unfoldable pub try_cluster : Coordinator → K → ReadOptions → Coordinator × Option ReadResult
  try_cluster s key opts = elim s.cluster [
    | none ↦ (s, none)
    | some x ↦
        let (memory, x', r) =
          fetch_loop (c.nodes_for_key x key) s.memory x key opts (missed miss) in
        if s.has_seeds
        then (
          record s { memory = memory; cluster = some x' },
          if accepted opts r then some r else none,
        )
        else (s, none)
  ]

  -- The next layer, unless one has answered.
  abbrev pub or_else :
      Coordinator × Option ReadResult
      → (Coordinator → Coordinator × Option ReadResult)
      → Coordinator × Option ReadResult
  or_else a f = elim a.1 [ some r ↦ (a.0, some r) | none ↦ f a.0 ]

  unfoldable pub get : Coordinator → K → ReadOptions → Coordinator × ReadResult
  get s key opts =
      let a = or_else (try_memory s key opts) (λ s'. try_disk s' key opts) in
      let b = or_else a (λ s'. try_cluster s' key opts) in
      (b.0, elim b.1 [ some r ↦ r | none ↦ missed miss ])

  -- The loops over the other nodes of a key in `put` and `remove`.
  unfoldable pub replicate_to : List ℕ → c.State → K → List ℕ → WriteOptions → c.State
  replicate_to [] x key value opts = x
  replicate_to (n ∷ nodes) x key value opts =
      if n == c.local_node x
      then replicate_to nodes x key value opts
      else replicate_to nodes (c.remote_put x n key value opts) key value opts

  unfoldable pub delete_from : List ℕ → c.State → K → c.State
  delete_from [] x key = x
  delete_from (n ∷ nodes) x key =
      if n == c.local_node x
      then delete_from nodes x key
      else delete_from nodes (c.remote_delete x n key) key

  -- A write to a layer, unless the options leave it out: the next state, the status, and whether the
  -- layer was written.
  unfoldable pub put_memory :
      Option m.State → K → List ℕ → WriteOptions → Option m.State × ErrorCode × Bool
  put_memory memory key value opts = elim memory [
    | none ↦ (none, ok, false)
    | some x ↦
        let (x', status) = m.put x key value opts in
        if opts.no_memory then (some x, ok, false) else (some x', status, true)
  ]

  unfoldable pub put_disk :
      Option d.State → K → List ℕ → WriteOptions → Option d.State × ErrorCode × Bool
  put_disk disk key value opts = elim disk [
    | none ↦ (none, ok, false)
    | some x ↦
        let (x', status) = d.put x key value opts in
        if opts.no_disk then (some x, ok, false) else (some x', status, true)
  ]

  unfoldable pub put_cluster : Option c.State → K → List ℕ → WriteOptions → Option c.State
  put_cluster cluster key value opts = elim cluster [
    | none ↦ none
    | some x ↦
        if opts.no_cluster
        then some x
        else some (replicate_to (c.nodes_for_key x key) x key value opts)
  ]

  unfoldable pub put : Coordinator → K → List ℕ → WriteOptions → Coordinator × ErrorCode
  put s key value opts =
      let (memory, e, in_memory) = put_memory s.memory key value opts in
      let (disk, e', on_disk) = put_disk s.disk key value opts in
      if not (is_ok e)
      then (record s { memory = memory }, e)
      else if not (is_ok e')
      then (record s { memory = memory; disk = disk }, e')
      else (
        record s { memory = memory; disk = disk; cluster = put_cluster s.cluster key value opts },
        if in_memory || on_disk then ok else internal_error,
      )

  unfoldable pub remove : Coordinator → K → DeleteOptions → Coordinator × ErrorCode
  remove s key opts = (
    record s {
      memory = elim s.memory [
        | none ↦ none
        | some x ↦ some (if opts.from_memory then (m.remove x key).0 else x)
      ];
      disk = elim s.disk [
        | none ↦ none
        | some x ↦ some (if opts.from_disk then (d.remove x key).0 else x)
      ];
      cluster = elim s.cluster [
        | none ↦ none
        | some x ↦ some (if opts.from_cluster then delete_from (c.nodes_for_key x key) x key else x)
      ];
    },
    ok,
  )

  -- The loop over the other nodes of a key, up to the first that has it.
  unfoldable pub check_loop :
      List ℕ → c.State → K → Option Range → Availability → c.State × Availability
  check_loop [] x key range result = (x, result)
  check_loop (n ∷ nodes) x key range result =
      let (x', remote_result) : c.State × Availability =
        if n == c.local_node x then (x, unavailable) else c.remote_check x n key range in
      let rest = check_loop nodes x' key range result in
      if remote_result.exists_there then (x', remote_result) else rest

  unfoldable pub check : Coordinator → K → Option Range → Coordinator × Availability
  check s key range =
      let result : Availability = elim s.memory [
        | none ↦ unavailable
        | some x ↦ m.check x key range
      ] in
      let merged : Availability = elim s.disk [
        | none ↦ result
        | some x ↦ merge_disk result (d.check x key range)
      ] in
      let remote : Coordinator × Availability = elim s.cluster [
        | none ↦ (s, merged)
        | some x ↦
            let (x', found) = check_loop (c.nodes_for_key x key) x key range merged in
            if merged.exists_there then (s, merged) else (record s { cluster = some x' }, found)
      ] in
      if result.exists_there && nothing_missing result then (s, result) else remote

  unfoldable pub metadata : Coordinator → K → Option CacheMetadata
  metadata s key =
      let from_disk : Option CacheMetadata = elim s.disk [
        | none ↦ none
        | some x ↦ d.metadata x key
      ] in
      elim s.memory [
        | none ↦ from_disk
        | some x ↦ elim (m.metadata x key) [ some a ↦ some a | none ↦ from_disk ]
      ]
