-- ===== src/Codec/Messages.antt =====
-- `Message`, the variant of all message types. `other` stands for those that `encode` has no branch for:
-- GossipPull, GossipAck, PutChunk, PutChunkResponse, HasChunk, HasChunkResponse and the five of streams.
use el_cache.Common.{ℕ, List, map, Option, none, some, Bool}
use el_cache.Range.{Range}
use el_cache.Codec.Fields.{NodeInfo}

-- `CacheMetadata`, with its times as numbers.
pub record Metadata : Type 0 where
  pub total_size : ℕ
  pub chunk_count : ℕ
  pub created_at : ℕ
  pub last_accessed : ℕ
  pub expires_at : Option ℕ
  pub flags : ℕ

pub data Message : Type 0 where
  hello : NodeInfo → List ℕ → List (List ℕ) → Message
  hello_ack : NodeInfo → Bool → List ℕ → Message
  gossip_push : ℕ → List NodeInfo → Message
  get : List ℕ → Bool → Option Range → Message
  get_response : ℕ → Option Metadata → List ℕ → Range → Message
  put : List ℕ → List ℕ → Option ℕ → ℕ → Message
  put_response : ℕ → List ℕ → Message
  delete : List ℕ → Message
  delete_response : ℕ → Bool → Message
  check : List ℕ → Option Range → Message
  check_response : Bool → Option Metadata → List Range → Message
  get_chunk : ℕ → ℕ → ℕ → ℕ → Message
  get_chunk_response : Bool → List ℕ → Message
  error : ℕ → List ℕ → ℕ → Message
  other : Message

-- What travels of a node's description, of metadata and of a message. `encode` writes no time: the other
-- side has a node that was last seen at the epoch, and metadata of the epoch that do not expire.
abbrev pub sent_info : NodeInfo → NodeInfo
sent_info n = record n { last_seen = 0 }

abbrev pub sent_metadata : Metadata → Metadata
sent_metadata m = record m { created_at = 0; last_accessed = 0; expires_at = none }

abbrev pub sent_optional : Option Metadata → Option Metadata
sent_optional none = none
sent_optional (some m) = some (sent_metadata m)

abbrev pub as_received : Message → Message
as_received (hello sender cluster caps) = hello (sent_info sender) cluster caps
as_received (hello_ack sender accepted reason) = hello_ack (sent_info sender) accepted reason
as_received (gossip_push sender nodes) = gossip_push sender (map sent_info nodes)
as_received (get key metadata_only range) = get key metadata_only range
as_received (get_response result metadata bytes range) =
    get_response result (sent_optional metadata) bytes range
as_received (put key bytes ttl flags) = put key bytes ttl flags
as_received (put_response code text) = put_response code text
as_received (delete key) = delete key
as_received (delete_response code existed) = delete_response code existed
as_received (check key range) = check key range
as_received (check_response exists metadata ranges) =
    check_response exists (sent_optional metadata) ranges
as_received (get_chunk low high offset len) = get_chunk low high offset len
as_received (get_chunk_response found bytes) = get_chunk_response found bytes
as_received (error code text request) = error code text request
as_received other = other
