-- ===== src/Lib.antt =====
-- Verification of ElCache, a distributed cache of large values in C++: values are split into chunks of
-- 4 MB, kept in memory by the ARC policy and on disk, and exchanged between nodes.
--
-- The parts and their files:
--   Common: numbers of 64 and 32 bits with their wrap-around, lists over the native numbers, calls that
--     an exception leaves.
--   Range: `Range` and `ChunkRange::compute` (include/elcache/types.hpp, src/core/types.cpp). Cover is
--     about the pieces of a range, Overlap about the tests on two ranges.
--   Arc: `ARCCache` (include/elcache/arc_cache.hpp). A `Cache` holds the lists T1 and T2 with the newest
--     entry first, the ghost lists B1 and B2, `p` and `current_size`; each operation returns the next
--     state. Evict, Put and Invariant carry the invariant, Store and Reads the view of the cache as a map,
--     Space the capacity, Adaptation the target `p`. Lists, Counting and Loss hold their lemmas.
--   Sparse: `SparseEntry` and `SparseCache` (include/elcache/sparse_cache.hpp). Write is about one write,
--     History about all writes to an entry, Table about the table of entries.
--   Chunk: `Chunk::read`, `ValueDescriptor` and `PartialValue` (include/elcache/chunk.hpp,
--     src/core/chunk.cpp). Missing is about the missing ranges.
--   Hash: `Hash128`, `CacheKey` and the hashes that are built without xxHash (include/elcache/types.hpp,
--     src/core/types.cpp, `Chunk::id` of src/core/chunk.cpp). Order is about `operator<`, Bounds about the
--     machine words.
--   Memory: `MemoryCache` (include/elcache/memory_cache.hpp, src/cache/memory_cache.cpp, with the results
--     of include/elcache/cache.hpp). Split and Assemble are about the two helpers on chunks, Fetch about
--     the chunks that `get` asks for, Get, PutGet and Remove about the operations.
--   Codec: the messages between nodes (include/elcache/protocol.hpp, src/protocol/codec.cpp). Parsing is
--     the decoders' result and sequence, Fields the helpers, Messages the variant; Reads and FieldReads
--     say that a decoder reads an encoding, RoundTrip does so for each payload, Frame for whole messages;
--     Known is about what the decoder can give at all.
--   Disk: `DiskCache` (include/elcache/disk_cache.hpp, src/cache/disk_cache.cpp) over a file system as a
--     parameter. Space is about what the index accounts for, Twice about a chunk that is put again.
--   Ring: `HashRing` (include/elcache/cluster.hpp, src/network/cluster.cpp). Walk and Nodes are about
--     `get_nodes`, Points about the two operations that change the ring, Added about what one adds.
--   Cluster: `Cluster`, `ClusterNode` and `GossipProtocol` (include/elcache/cluster.hpp,
--     src/network/cluster.cpp). Gossip is about news and rounds, Routing about the nodes of a key. Remote
--     is the requests to another node and `connect_to_seeds`, over a network that says which bytes arrive;
--     Exchanges and Answers are about the answers.
--   Coordinator: `CacheCoordinator` (src/cache/cache_coordinator.cpp). Memory and disk are two records of
--     the operations of `ICache`, the cluster is one of what the other nodes answer. Layers makes such a
--     record of Memory; Reads and Values are about the operations, Streams is the two streams,
--     Stats the statistics of both layers.
--   Text: texts as lists of bytes, with what the sources use of `std::string` and `std::stoull`; Numbers is
--     about numbers that are printed and read.
--   Http: the HTTP API (include/elcache/http_api.hpp, src/http/http_api.cpp). The root is requests and
--     responses, Options what is read from a request and put in a response, Handlers the handlers of values
--     and of the server's state, SparseHandlers those of sparse values, Router the routing and the table
--     of routes. Ranges is about the `Range` header, Gets and Written hold lemmas, PutGet and Finalize are
--     about requests one after the other, Effects about what an endpoint can change.
--   Config: the configuration (include/elcache/config.hpp, src/core/config.cpp): the records, their reading
--     and validation; Json is `SimpleJson`, Printing is `to_json`. Objects holds lemmas, Pool is about one
--     object that is written and read.
--   Metrics: histograms, the collector and its two exports (include/elcache/metrics.hpp,
--     src/http/metrics.cpp). Buckets is about the buckets of a histogram.
--   Wire: the bytes between a client and the server of local clients (include/elcache/unix_server.hpp,
--     the first part of src/network/unix_server.cpp). Code has the codes of messages; Numbers and Headers
--     read what was written.
--   UnixServer: `UnixSocketServer` and `SyncCache` (src/network/unix_server.cpp). Reading is the parsing
--     of a payload, Faults about its tests.
--   Sdk: the client library (include/elcache/elcache_sdk.h, src/sdk/elcache_client.c). Requests, Served
--     and Exchange join it to UnixServer, Completed is about a whole connection; Calls is a call from end to end, Results and Failures say what it
--     returns, Overflow is about the send buffer.
--
-- How the parts meet: Memory keeps the chunks of its values in a `Cache` of Arc under their content hash,
-- asks `chunks_for_range` of Chunk which of them a range needs, and reads them by `Chunk::read`. Chunk,
-- Memory and Codec use `Range`. Coordinator asks memory, disk and the other nodes in this order, and keeps
-- in memory what it found further on. Cluster looks up in its table the nodes that Ring chose. Sdk builds
-- bytes that UnixServer reads, which keeps values of its own and those of Sparse; it does not ask the
-- coordinator. The handlers of Http put, read and remove values through Coordinator, and write sparse values
-- to Sparse, from which a finished one goes to the coordinator. The remote operations of Cluster send and
-- read messages by Codec; Coordinator takes them, as it takes memory and disk, as a record of operations.
--
-- Numbers are natural numbers; where the source computes with `uint64_t`, the sum, difference and product
-- are `add64`, `sub64` and `mul64`, which wrap around. Keys and chunk identifiers are parameters of which
-- only equality is used (the local clients' keys are bytes), and the content hash of a chunk, `Chunk::id`,
-- is a parameter of Memory: a build takes it from xxHash or from the code in Hash. The points of a node on
-- the ring are a parameter of Ring, which also has `hash_point`. The loops of `ChunkRange::compute` and of
-- `missing_ranges` run on fuel, one more than the bytes of the range, since a round moves on by a byte at
-- least; when it runs out they return `none`. `split_value` and the flush of a stream run on the number of
-- bytes, of which a round takes one at least; `get_nodes` on twice the points of the ring, enough to come
-- round once; the loop of a connection on the bytes that the client sends. The eviction loop runs on the
-- number of entries, of which a round takes one away. A list that the source indexes by a hash map is
-- searched from the front. An access outside of a buffer is a result of its own (`fault`, `overrun`,
-- `stale`, `read_past_end`).
--
-- The exceptions of `std::stoull` and its kin are `none` where the source does not catch them, and a handler
-- that they leave ends in `thrown`. The exception of `parse_header` that leaves a remote operation of
-- Cluster, and that of `std::filesystem::remove` that leaves an operation of Disk, are `threw` of
-- `Completion`; the records that Coordinator takes have no exceptions. A time of `CacheMetadata` is the word
-- of an `int64_t` of nanoseconds and a lifetime that of one of seconds; their sum wraps in two's complement,
-- which the source leaves undefined. A number is printed with 20 digits of fuel, which hold any `uint64_t`.
-- A size in HTTP that no memory could hold is taken as any other.
--
-- Not modelled: `double` is a parameter wherever it is used, with named laws in Arc; locks (each operation
-- runs as a whole); the clock, which is an argument; the coroutines, the sockets and the HTTP server of the
-- Elio library, and its choice of a route; `remote_put_chunk` and `remote_has_chunks`, whose messages the
-- codec has no branch for; the scan of the disk at the start; the reading and writing of files; the main
-- program; the shared memory of the client library.
pub mod Arc
pub mod Chunk
pub mod Cluster
pub mod Codec
pub mod Common
pub mod Config
pub mod Coordinator
pub mod Disk
pub mod Hash
pub mod Http
pub mod Memory
pub mod Metrics
pub mod Range
pub mod Ring
pub mod Sdk
pub mod Sparse
pub mod Text
pub mod UnixServer
pub mod Wire
