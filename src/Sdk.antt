-- ===== src/Sdk.antt =====
-- The client library (include/elcache/elcache_sdk.h, src/sdk/elcache_client.c) over a Unix socket: each
-- operation in two halves, up to the request that is sent and from the response on. Null pointers are left
-- out, a value's address has no counterpart, and the time of an exchange is an argument. A socket error is a
-- response that ends early.
use el_cache.Common.{
  ℕ, zero, suc, ◌+◌, ◌%◌, Bool, true, false, not, ◌&&◌, ◌||◌, Option, none, some, List, [], ◌∷◌,
  ◌++◌, ltb, leb, ◌==◌, if◌then◌else◌, length, take, drop, u32_mod, sub64, add64,
}
use el_cache.Wire.{
  bytes_at, number_at, field, encode_u32, encode_u64, encode_header, header_size, proto_magic,
}
use el_cache.Wire.Code
pub mod Requests
pub mod Served
pub mod Completed
pub mod Exchange
pub mod Calls
pub mod Results
pub mod Failures
pub mod Overflow
mod Tests

-- The codes of `elcache_error_t` that these operations return.
pub data SdkError : Type 0 where
  success : SdkError
  not_found : SdkError
  invalid_arg : SdkError
  partial_data : SdkError
  connection : SdkError
  protocol : SdkError
  buffer_too_small : SdkError
  key_too_large : SdkError
  value_too_large : SdkError
  internal : SdkError

pub record Client : Type 0 where
  pub connected : Bool
  pub recv_buffer_size : ℕ
  pub send_buffer_size : ℕ
  pub next_request_id : ℕ
  pub hits : ℕ
  pub misses : ℕ
  pub partial_hits : ℕ
  pub bytes_read : ℕ
  pub bytes_written : ℕ
  pub total_latency_us : ℕ
  pub request_count : ℕ
  pub max_latency_us : ℕ

-- What an operation does first: it returns an error, it writes past the end of the send buffer, or it
-- sends the bytes of a request.
pub data Started : Type 0 where
  refused : SdkError → Started
  overrun : Started
  request : Client → List ℕ → Started

abbrev pub max_key : ℕ
max_key = 8192

unfoldable pub key_field : List ℕ → List ℕ
key_field key = encode_u32 (length key) ++ key

-- A range of length 0 reaches to the end of the value.
abbrev pub has_range : ℕ → ℕ → Bool
has_range offset size = ltb 0 offset || ltb 0 size

unfoldable pub range_field : ℕ → ℕ → List ℕ
range_field offset size =
    if has_range offset size then 1 ∷ (encode_u64 offset ++ encode_u64 size) else 0 ∷ []

unfoldable pub ttl_field : ℕ → List ℕ
ttl_field ttl_seconds = if ltb 0 ttl_seconds then 1 ∷ encode_u64 ttl_seconds else 0 ∷ []

unfoldable pub get_payload : List ℕ → ℕ → ℕ → List ℕ
get_payload key offset size = key_field key ++ (0 ∷ range_field offset size)

unfoldable pub put_payload : List ℕ → List ℕ → ℕ → ℕ → List ℕ
put_payload key value ttl_seconds flags =
    key_field key
    ++ (encode_u32 (length value) ++ (value ++ (ttl_field ttl_seconds ++ encode_u32 flags)))

unfoldable pub create_payload : List ℕ → ℕ → ℕ → ℕ → List ℕ
create_payload key total_size ttl_seconds flags =
    key_field key ++ (encode_u64 total_size ++ (ttl_field ttl_seconds ++ encode_u32 flags))

unfoldable pub write_payload : List ℕ → ℕ → List ℕ → List ℕ
write_payload key offset buf =
    key_field key ++ (encode_u64 offset ++ (encode_u32 (length buf) ++ buf))

unfoldable pub message : ℕ → ℕ → ℕ → List ℕ → List ℕ
message message_type request_id now payload =
    encode_header message_type (length payload % u32_mod) request_id now ++ payload

-- The request is built in the send buffer behind its header.
unfoldable pub send : Client → ℕ → ℕ → List ℕ → Started
send c message_type now payload =
    if ltb c.send_buffer_size (header_size + length payload)
    then overrun
    else request (record c { next_request_id = (c.next_request_id + 1) % u32_mod })
        (message message_type c.next_request_id now payload)

-- The tests that most operations begin with.
unfoldable pub checked : Client → List ℕ → Started → Started
checked c key started =
    if ltb max_key (length key)
    then refused key_too_large
    else if c.connected
    then started
    else refused connection

unfoldable pub get_request : Client → ℕ → List ℕ → ℕ → ℕ → Started
get_request c now key offset size =
    checked c key (send c Code.get now (get_payload key offset size))

-- `needed` counts the lifetime, whether there is one or not.
unfoldable pub put_request : Client → ℕ → List ℕ → List ℕ → ℕ → ℕ → Started
put_request c now key value ttl_seconds flags = checked c key (
    if ltb c.send_buffer_size (header_size + 4 + length key + 4 + length value + 1 + 8 + 4)
    then refused value_too_large
    else send c Code.put now (put_payload key value ttl_seconds flags))

unfoldable pub delete_request : Client → ℕ → List ℕ → Started
delete_request c now key =
    if c.connected then send c Code.delete now (key_field key) else refused connection

unfoldable pub create_request : Client → ℕ → List ℕ → ℕ → ℕ → ℕ → Started
create_request c now key total_size ttl_seconds flags =
    checked c key (send c Code.create_sparse now (create_payload key total_size ttl_seconds flags))

unfoldable pub write_request : Client → ℕ → List ℕ → ℕ → List ℕ → Started
write_request c now key offset buf = checked c key (
    if ltb c.send_buffer_size (header_size + 4 + length key + 8 + 4 + length buf)
    then refused value_too_large
    else send c Code.write_range now (write_payload key offset buf))

unfoldable pub finalize_request : Client → ℕ → List ℕ → Started
finalize_request c now key =
    if c.connected then send c Code.finalize now (key_field key) else refused connection

-- How an operation ends: the client, the code that it returns, the bytes for the caller's buffer, and those
-- that the socket still holds; or a write past the end of the receive buffer; or a field that is read from
-- bytes of the buffer which the response did not bring.
pub data Ended : Type 0 where
  answer : Client → SdkError → List ℕ → List ℕ → Ended
  overrun : Ended
  stale : Ended

-- The statistics of a completed exchange.
unfoldable pub count_exchange : Client → ℕ → Client
count_exchange c latency = record c {
  request_count = add64 c.request_count 1;
  total_latency_us = add64 c.total_latency_us latency;
  max_latency_us = if ltb c.max_latency_us latency then latency else c.max_latency_us;
}

abbrev pub from_number : Option ℕ → (ℕ → Ended) → Ended
from_number o f = elim o [ none ↦ stale | some n ↦ f n ]

-- The end of `elcache_client_get`: the code, the length of the bytes, and the bytes where the response has so
-- many; `rest` follows the response.
unfoldable pub get_result : Client → ℕ → ℕ → ℕ → ℕ → Option (List ℕ) → List ℕ → Ended
get_result c buffer_size latency result data_len none rest =
    if result == 1
    then answer (record c { misses = add64 c.misses 1 }) not_found [] rest
    else if ltb buffer_size data_len
    then answer c buffer_too_small [] rest
    else stale
get_result c buffer_size latency result data_len (some bytes) rest =
    let counted : Client = count_exchange c latency in
    let c' : Client = record counted { bytes_read = add64 c.bytes_read data_len } in
    if result == 1
    then answer (record c { misses = add64 c.misses 1 }) not_found [] rest
    else if ltb buffer_size data_len
    then answer c buffer_too_small [] rest
    else if result == 0
    then answer (record c' { hits = add64 c.hits 1 }) success bytes rest
    else if result == 2
    then answer (record c' { partial_hits = add64 c.partial_hits 1 }) partial_data bytes rest
    else answer c' success bytes rest

-- The fields of the response to a `Get`.
unfoldable pub get_fields : Client → ℕ → ℕ → List ℕ → List ℕ → Ended
get_fields c buffer_size latency body rest = from_number (number_at body 0 4) λ result.
    from_number (number_at body 4 1) λ has_meta.
      let pos : ℕ = if has_meta == 0 then 5 else 25 in
      from_number (number_at body pos 4) λ data_len.
        get_result c buffer_size latency result data_len (bytes_at body (pos + 4) data_len) rest

unfoldable pub get_response : Client → ℕ → ℕ → List ℕ → Ended
get_response c buffer_size latency input =
    let rest : List ℕ = drop header_size input in
    let response_len : ℕ = field input 8 4 in
    if ltb (length input) header_size
    then answer c connection [] []
    else if not (field input 0 4 == proto_magic)
    then answer c protocol [] rest
    else if not (field input 6 2 == Code.get_response)
    then answer c protocol [] rest
    else if ltb (sub64 c.recv_buffer_size header_size) response_len
    then answer c buffer_too_small [] rest
    else if ltb (length rest) response_len
    then answer c connection [] []
    else get_fields c buffer_size latency (take response_len rest) (drop response_len rest)

-- The other operations read a response with no test of its header.
unfoldable pub any_response : Client → (List ℕ → List ℕ → Ended) → List ℕ → Ended
any_response c use_body input =
    let rest : List ℕ = drop header_size input in
    let response_len : ℕ = field input 8 4 in
    if ltb (length input) header_size
    then answer c connection [] []
    else if ltb c.recv_buffer_size (header_size + response_len)
    then overrun
    else if ltb (length rest) response_len
    then answer c connection [] []
    else use_body (take response_len rest) (drop response_len rest)

unfoldable pub put_response : Client → ℕ → ℕ → List ℕ → Ended
put_response c value_len latency = any_response c λ body rest.
    from_number (number_at body 0 4) λ code.
      let counted : Client = count_exchange c latency in
      let c' : Client = record counted { bytes_written = add64 c.bytes_written value_len } in
      answer c' (if code == 0 then success else internal) [] rest

unfoldable pub delete_response : Client → List ℕ → Ended
delete_response c = any_response c (λ body rest. answer c success [] rest)

unfoldable pub create_response : Client → List ℕ → Ended
create_response c = any_response c λ body rest.
    from_number (number_at body 0 4)
      λ code. answer c (if code == 0 then success else internal) [] rest

unfoldable pub write_response : Client → ℕ → List ℕ → Ended
write_response c data_len = any_response c λ body rest. from_number (number_at body 0 4) λ code.
    if code == 1
    then answer c not_found [] rest
    else if code == 2
    then answer c invalid_arg [] rest
    else if code == 0
    then answer (record c { bytes_written = add64 c.bytes_written data_len }) success [] rest
    else answer c internal [] rest

unfoldable pub finalize_response : Client → List ℕ → Ended
finalize_response c = any_response c λ body rest. from_number (number_at body 0 4) λ code.
    if code == 1
    then answer c not_found [] rest
    else if code == 2
    then answer c partial_data [] rest
    else if code == 0
    then answer c success [] rest
    else answer c internal [] rest
