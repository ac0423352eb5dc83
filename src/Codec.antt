-- ===== src/Codec.antt =====
-- `Codec` (include/elcache/protocol.hpp, src/protocol/codec.cpp): the wire format between nodes. A byte
-- is a number; an enumerator and a number of seconds travel as their numbers. `memcpy` of the header's
-- fields is in the byte order of the supported machines, least significant byte first.
use el_cache.Common.{
  ℕ, zero, suc, ◌+◌, ◌*◌, ◌/◌, ◌%◌, ◌^◌, ◌≡◌, Bool, true, false, not, Option, none, some, List, [],
  ◌∷◌, ◌++◌, ltb, ◌==◌, if◌then◌else◌, length, take, drop, u32_mod,
}
use el_cache.Range.{Range}
pub mod Parsing
pub mod Fields
pub mod Messages
pub mod Reads
pub mod FieldReads
pub mod RoundTrip
pub mod Frame
pub mod Known
mod Tests
use Parsing.{Parser, Result, ok, fail, unknown_type, invalid_magic, truncated, ◌>>=◌, pure}
use Fields.{
  encode_u16, encode_u32, encode_u64, encode_string, decode_u16, decode_u32, decode_u64,
  decode_string, flag, decode_flag, decode_many, encode_node_info, decode_node_info, NodeInfo,
}
use Messages.{
  Message, hello, hello_ack, gossip_push, get, get_response, put, put_response, delete,
  delete_response, check, check_response, get_chunk, get_chunk_response, error, other, Metadata,
}

pub record Header : Type 0 where
  pub magic : ℕ
  pub version : ℕ
  pub message_type : ℕ
  pub payload_length : ℕ
  pub request_id : ℕ
  pub timestamp : ℕ

abbrev pub magic_number : ℕ
magic_number = 0x454C4341

abbrev pub header_size : ℕ
header_size = 24

-- The time is an argument.
unfoldable pub encode_header : ℕ → ℕ → ℕ → ℕ → List ℕ
encode_header message_type payload_len request_id now =
    encode_u32 magic_number
    ++ (encode_u16 1
        ++ (encode_u16 message_type
            ++ (encode_u32 payload_len ++ (encode_u32 request_id ++ encode_u64 now))))

-- The fields of a header of 24 bytes.
unfoldable pub header_fields : Parser Header
header_fields = do
  magic ← decode_u32
  version ← decode_u16
  message_type ← decode_u16
  payload_length ← decode_u32
  request_id ← decode_u32
  timestamp ← decode_u64
  pure (record {
    magic = magic;
    version = version;
    message_type = message_type;
    payload_length = payload_length;
    request_id = request_id;
    timestamp = timestamp;
  })

unfoldable pub check_magic : Header × List ℕ → Result (Header × List ℕ)
check_magic (hdr, rest) = if hdr.magic == magic_number then ok (hdr, rest) else fail invalid_magic

-- `parse_header`, with the bytes behind the header.
unfoldable pub parse_header : List ℕ → Result (Header × List ℕ)
unfolding check_magic
parse_header bytes =
    if ltb (length bytes) header_size
    then fail truncated
    else elim (header_fields bytes) [ ok r ↦ check_magic r | fail e ↦ fail e ]

-- An optional field: a flag, and the field if there is one.
unfoldable pub encode_option : {A : Type 0} → (A → List ℕ) → Option A → List ℕ
encode_option f none = flag false
encode_option f (some a) = flag true ++ f a

unfoldable pub encode_range : Range → List ℕ
encode_range r = encode_u64 r.offset ++ encode_u64 r.length

unfoldable pub encode_metadata : Metadata → List ℕ
encode_metadata m = encode_u64 m.total_size ++ (encode_u64 m.chunk_count ++ encode_u32 m.flags)

unfoldable pub encode_all : {A : Type 0} → (A → List ℕ) → List A → List ℕ
encode_all f [] = []
encode_all f (a ∷ l) = f a ++ encode_all f l

-- The count of a list, then its items.
unfoldable pub encode_list : {A : Type 0} → (A → List ℕ) → List A → List ℕ
unfolding encode_all
encode_list f l = encode_u32 (length l % u32_mod) ++ encode_all f l

-- The types of `MessageType`.
unfoldable pub type_code : Message → ℕ
type_code (hello sender cluster caps) = 0x0001
type_code (hello_ack sender accepted reason) = 0x0002
type_code (gossip_push sender nodes) = 0x0010
type_code (get key metadata_only range) = 0x0100
type_code (get_response result metadata bytes range) = 0x0101
type_code (put key bytes ttl flags) = 0x0102
type_code (put_response code message) = 0x0103
type_code (delete key) = 0x0104
type_code (delete_response code existed) = 0x0105
type_code (check key range) = 0x0106
type_code (check_response exists metadata ranges) = 0x0107
type_code (get_chunk low high offset len) = 0x0200
type_code (get_chunk_response found bytes) = 0x0201
type_code (error code message request) = 0xFFFF
type_code other = 0xFFFF

unfoldable pub encode_payload : Message → List ℕ
encode_payload (hello sender cluster caps) =
    encode_node_info sender ++ (encode_string cluster ++ encode_list encode_string caps)
encode_payload (hello_ack sender accepted reason) =
    encode_node_info sender ++ (flag accepted ++ encode_string reason)
encode_payload (gossip_push sender nodes) = encode_u64 sender ++ encode_list encode_node_info nodes
encode_payload (get key metadata_only range) =
    encode_string key ++ (flag metadata_only ++ encode_option encode_range range)
encode_payload (get_response result metadata bytes range) =
    encode_u32 result
    ++ (encode_option encode_metadata metadata ++ (encode_string bytes ++ encode_range range))
encode_payload (put key bytes ttl flags) =
    encode_string key ++ (encode_string bytes ++ (encode_option encode_u64 ttl ++ encode_u32 flags))
encode_payload (put_response code message) = encode_u32 code ++ encode_string message
encode_payload (delete key) = encode_string key
encode_payload (delete_response code existed) = encode_u32 code ++ flag existed
encode_payload (check key range) = encode_string key ++ encode_option encode_range range
encode_payload (check_response exists metadata ranges) =
    flag exists ++ (encode_option encode_metadata metadata ++ encode_list encode_range ranges)
encode_payload (get_chunk low high offset len) =
    encode_u64 low ++ (encode_u64 high ++ (encode_u64 offset ++ encode_u64 len))
encode_payload (get_chunk_response found bytes) = flag found ++ encode_string bytes
encode_payload (error code message request) =
    encode_u32 code ++ (encode_string message ++ encode_u32 request)
encode_payload other = []

unfoldable pub encode : Message → ℕ → ℕ → List ℕ
encode msg request_id now =
    encode_header (type_code msg) (length (encode_payload msg) % u32_mod) request_id now
    ++ encode_payload msg

unfoldable pub decode_option : {A : Type 0} → Parser A → Parser (Option A)
decode_option p = do
  present ← decode_flag
  if present then (p >>= λ a. pure (some a)) else pure none

unfoldable pub decode_range : Parser Range
decode_range = do
  offset ← decode_u64
  len ← decode_u64
  pure (record { offset = offset; length = len })

-- The times are as `CacheMetadata` is made: the epoch, and no expiry.
unfoldable pub decode_metadata : Parser Metadata
decode_metadata = do
  total_size ← decode_u64
  chunk_count ← decode_u64
  flags ← decode_u32
  pure (record {
    total_size = total_size;
    chunk_count = chunk_count;
    created_at = 0;
    last_accessed = 0;
    expires_at = none;
    flags = flags;
  })

unfoldable pub decode_list : {A : Type 0} → Parser A → Parser (List A)
decode_list p = decode_u32 >>= λ count. decode_many p count

unfoldable pub decode_hello : Parser Message
decode_hello = do
  sender ← decode_node_info
  cluster ← decode_string
  caps ← decode_list decode_string
  pure (hello sender cluster caps)

unfoldable pub decode_hello_ack : Parser Message
decode_hello_ack = do
  sender ← decode_node_info
  accepted ← decode_flag
  reason ← decode_string
  pure (hello_ack sender accepted reason)

unfoldable pub decode_gossip_push : Parser Message
decode_gossip_push = do
  sender ← decode_u64
  nodes ← decode_list decode_node_info
  pure (gossip_push sender nodes)

unfoldable pub decode_get : Parser Message
decode_get = do
  key ← decode_string
  metadata_only ← decode_flag
  range ← decode_option decode_range
  pure (get key metadata_only range)

unfoldable pub decode_get_response : Parser Message
decode_get_response = do
  result ← decode_u32
  metadata ← decode_option decode_metadata
  bytes ← decode_string
  range ← decode_range
  pure (get_response result metadata bytes range)

unfoldable pub decode_put : Parser Message
decode_put = do
  key ← decode_string
  bytes ← decode_string
  ttl ← decode_option decode_u64
  flags ← decode_u32
  pure (put key bytes ttl flags)

unfoldable pub decode_put_response : Parser Message
decode_put_response = do
  code ← decode_u32
  message ← decode_string
  pure (put_response code message)

unfoldable pub decode_delete : Parser Message
decode_delete = do key ← decode_string; pure (delete key)

unfoldable pub decode_delete_response : Parser Message
decode_delete_response = do
  code ← decode_u32
  existed ← decode_flag
  pure (delete_response code existed)

unfoldable pub decode_error : Parser Message
decode_error = do
  code ← decode_u32
  message ← decode_string
  request ← decode_u32
  pure (error code message request)

-- The `switch` of `decode`.
unfoldable pub decode_payload : ℕ → Parser Message
decode_payload t =
    if t == 0x0001
    then decode_hello
    else if t == 0x0002
    then decode_hello_ack
    else if t == 0x0010
    then decode_gossip_push
    else if t == 0x0100
    then decode_get
    else if t == 0x0101
    then decode_get_response
    else if t == 0x0102
    then decode_put
    else if t == 0x0103
    then decode_put_response
    else if t == 0x0104
    then decode_delete
    else if t == 0x0105
    then decode_delete_response
    else if t == 0xFFFF
    then decode_error
    else λ bytes. fail unknown_type

unfoldable pub decode : List ℕ → Result (Message × Header)
decode bytes = elim (parse_header bytes) [
  | fail e ↦ fail e
  | ok (hdr, rest) ↦ elim (decode_payload hdr.message_type rest) [
    | fail e ↦ fail e
    | ok (msg, left) ↦ ok (msg, hdr)
  ]
]
