-- ===== src/Sdk/Results.antt =====
-- What a client gets back from the server, over calls one after another on its connection.
use el_cache.Common.{
  ℕ, ◌+◌, ◌%◌, ◌≡◌, ◌≤◌, ◌<◌, refl, ap, ◌∙◌, false, none, some, List, [], ◌∷◌, ◌++◌, arith, length,
  ltb, u32_mod, u64_mod, add64, take_all, drop_all,
}
use mathlib.Core.Logic.{if_pos}
use el_cache.Wire.{
  encode_le, decode_le, encode_u32, encode_header, header_size, number_at, bytes_at,
}
use el_cache.Wire.Code
use el_cache.Wire.Headers.{encode_header-IsHeader}
use el_cache.UnixServer
use el_cache.UnixServer.{Server, reply, put_value, remove_value, value_of, do_get, do_put, slice}
use el_cache.Sdk.{
  Client, success, has_range, answer, get_response, put_response, max_key, get_result,
  count_exchange,
}
use el_cache.Sdk.Served.{get_of, put_of, Fits}
use el_cache.Sdk.Exchange.{
  get_response-IsHeader, get_fields-get_response, any_response-IsHeader, part_of, slice-part_of,
}
use el_cache.Sdk.Calls.{
  completed, outcome, and_then, IsReady, numbered, call, call_get, call_put, call-message,
  get_request_fits, put_request_fits, length-get_payload, length-put_payload,
}

pub length-get_response :
    (code : ℕ) (bytes : List ℕ) → length (UnixServer.get_response code bytes) ≡ 9 + length bytes
unfolding UnixServer.get_response encode_le
length-get_response code bytes = omega arith

-- The client after a put of so many bytes.
abbrev pub after_put : Client → ℕ → ℕ → Client
after_put c value_len latency = record (count_exchange c latency) {
  bytes_written = add64 c.bytes_written value_len;
}

module _ (dec : Discrete (List ℕ)) where
  value_of-put_value :
      (key value : List ℕ) (l : List (List ℕ × List ℕ))
      → value_of dec key (put_value dec key value l) ≡ some value
  unfolding value_of put_value
  value_of-put_value key value l = if_pos (dec key key) refl _ _

  pub value_of-remove_value :
      (key : List ℕ) (l : List (List ℕ × List ℕ)) → value_of dec key (remove_value dec key l) ≡ none
  unfolding value_of remove_value
  value_of-remove_value key [] = refl
  value_of-remove_value key ((k, v) ∷ l) = ground (arith, value_of-remove_value key l)

  pub found_part :
      (s : Server) (key value : List ℕ) (offset size : ℕ)
      → value_of dec key s.values ≡ some value
      → do_get dec s key (has_range offset size) offset size
        ≡ reply s Code.get_response (UnixServer.get_response 0 (part_of offset size value))
  unfolding do_get
  found_part s key value offset size e = rw (e, do_get, slice-part_of offset size value) refl

  pub get_Fits :
      (key : List ℕ) (offset size : ℕ)
      → length key ≤ max_key
      → offset < u64_mod
      → size < u64_mod
      → Fits (get_of key offset size)
  get_Fits key offset size short ho hs = record {
    fields = (omega arith, ho, hs);
    whole = omega (arith, length-get_payload key offset size);
  }

  -- The response to a `Get`, as the client takes it apart.
  pub get_response-sent :
      (c : Client) (buffer_size latency code request_id now : ℕ) (bytes : List ℕ)
      → code < u32_mod
      → request_id < u32_mod
      → header_size + 9 + length bytes ≤ c.recv_buffer_size
      → c.recv_buffer_size < u32_mod
      → let response = UnixServer.get_response code bytes in
        get_response c buffer_size latency
          (encode_header Code.get_response (length response % u32_mod) request_id now ++ response)
        ≡ get_result c buffer_size latency code (length bytes) (some bytes) []
  get_response-sent c buffer_size latency code request_id now bytes hc hi room word =
      let response = UnixServer.get_response code bytes in
      let e : length response % u32_mod ≡ length response =
        omega (arith, length-get_response code bytes) in
      let head =
        encode_header-IsHeader Code.get_response (length response) request_id now response
          (omega arith) (omega (arith, length-get_response code bytes)) hi in
      rw e (
        get_response-IsHeader c buffer_size latency _ (length response) request_id response head
          (omega arith) (omega (arith, length-get_response code bytes)) (omega arith)
        ∙ rw
            (
              take_all (length response) response (omega arith),
              drop_all (length response) response (omega arith),
            )
            (get_fields-get_response c buffer_size latency code bytes [] hc (omega arith)))

  -- A `Get` of a value that the server has.
  call_get-found :
      (s : Server) (now latency : ℕ) (c : Client) (key value : List ℕ) (offset size buffer_size : ℕ)
      → IsReady c
      → length key ≤ max_key
      → offset < u64_mod
      → size < u64_mod
      → value_of dec key s.values ≡ some value
      → header_size + 9 + length (part_of offset size value) ≤ c.recv_buffer_size
      → call_get dec s now latency c [] key offset size buffer_size
        ≡ completed s (
            get_result
              (numbered c)
              buffer_size
              latency
              0
              (length (part_of offset size value))
              (some (part_of offset size value))
              [])
  unfolding call_get
  call_get-found s now latency c key value offset size buffer_size ready short ho hs e room =
      let performed = found_part s key value offset size e in
      ap (λ started. call dec s now c [] started (λ c'. get_response c' buffer_size latency))
        (get_request_fits c now key offset size ready short)
      ∙ call-message dec s s now c (numbered c) [] (get_of key offset size) c.next_request_id
          Code.get_response (UnixServer.get_response 0 (part_of offset size value)) _
          (get_Fits key offset size short ho hs) ready.id_bound performed
      ∙ ap (completed s) (
          get_response-sent (numbered c) buffer_size latency 0 c.next_request_id now
            (part_of offset size value) (omega arith) ready.id_bound room ready.recv_bound)

  put_response-sent :
      (c : Client) (value_len latency request_id now : ℕ)
      → request_id < u32_mod
      → header_size + 9 ≤ c.recv_buffer_size
      → put_response c value_len latency
          (encode_header Code.put_response 4 request_id now ++ encode_u32 0)
        ≡ answer (after_put c value_len latency) success [] []
  unfolding put_response encode_le number_at bytes_at decode_le
  put_response-sent c value_len latency request_id now hi room =
      let head =
        encode_header-IsHeader Code.put_response 4 request_id now (encode_u32 0) (omega arith)
          (omega arith) hi in
      any_response-IsHeader c _ _ Code.put_response 4 request_id (encode_u32 0) head (omega arith)
        (omega arith)

  -- A put of a key of at most `max_key` bytes, of a ready client whose send buffer has room for it, succeeds.
  -- The server has the value under the key, and the client's statistics count it.
  pub call_put-stored :
      (s : Server) (now latency : ℕ) (c : Client) (key value : List ℕ) (ttl_seconds flags : ℕ)
      → IsReady c
      → length key ≤ max_key
      → header_size + 4 + length key + 4 + length value + 1 + 8 + 4 ≤ c.send_buffer_size
      → call_put dec s now latency c [] key value ttl_seconds flags
        ≡ completed
            (record s { values = put_value dec key value s.values })
            (answer (after_put (numbered c) (length value) latency) success [] [])
  unfolding call_put do_put encode_le
  call_put-stored s now latency c key value ttl_seconds flags ready short room =
      let s' : Server = record s { values = put_value dec key value s.values } in
      let fits : Fits (put_of key value ttl_seconds flags) = record {
        fields = (omega arith, omega (arith, ready.send_bound));
        whole = omega (arith, length-put_payload key value ttl_seconds flags, ready.send_bound);
      } in
      ap (λ started. call dec s now c [] started (λ c'. put_response c' (length value) latency))
        (put_request_fits c now key value ttl_seconds flags ready short room)
      ∙ call-message dec s s' now c (numbered c) [] (put_of key value ttl_seconds flags)
          c.next_request_id Code.put_response (encode_u32 0) _ fits ready.id_bound refl
      ∙ ap (completed s') (
          put_response-sent (numbered c) (length value) latency c.next_request_id now ready.id_bound
            ready.recv_room)

  after_put-IsReady :
      (c : Client) (value_len latency : ℕ)
      → IsReady c
      → IsReady (after_put (numbered c) value_len latency)
  unfolding count_exchange
  after_put-IsReady c value_len latency ready = record {
    is_connected = ready.is_connected;
    id_bound = omega arith;
    send_room = ready.send_room;
    send_bound = ready.send_bound;
    recv_room = ready.recv_room;
    recv_bound = ready.recv_bound;
  }

  get_result-success :
      (c : Client) (buffer_size latency : ℕ) (bytes rest : List ℕ) (s : Server)
      → length bytes ≤ buffer_size
      → outcome (completed s (get_result c buffer_size latency 0 (length bytes) (some bytes) rest))
        ≡ some (success, bytes)
  unfolding get_result
  get_result-success c buffer_size latency bytes rest s room =
      let fits : ltb buffer_size (length bytes) ≡ false = ground arith in rw fits refl

  -- A get after a put of the same key on the same connection returns the asked part of the value, where the
  -- put fits the client's send buffer and the part its receive buffer and the caller's.
  pub call_get-call_put :
      (s : Server) (now latency : ℕ) (c : Client) (key value : List ℕ)
      (ttl_seconds flags offset size buffer_size : ℕ)
      → IsReady c
      → length key ≤ max_key
      → header_size + 4 + length key + 4 + length value + 1 + 8 + 4 ≤ c.send_buffer_size
      → offset < u64_mod
      → size < u64_mod
      → header_size + 9 + length (part_of offset size value) ≤ c.recv_buffer_size
      → length (part_of offset size value) ≤ buffer_size
      → outcome (
          and_then
            (call_put dec s now latency c [] key value ttl_seconds flags)
            (λ s' c' pending. call_get dec s' now latency c' pending key offset size buffer_size))
        ≡ some (success, part_of offset size value)
  unfolding count_exchange
  call_get-call_put s now latency c key value ttl_seconds flags offset size buffer_size ready short
        room ho hs recv fits =
      let s' : Server = record s { values = put_value dec key value s.values } in
      let c' : Client = after_put (numbered c) (length value) latency in
      rw (call_put-stored s now latency c key value ttl_seconds flags ready short room) (
        ap outcome (
          call_get-found s' now latency c' key value offset size buffer_size
            (after_put-IsReady c (length value) latency ready) short ho hs
            (value_of-put_value key value s.values) recv)
        ∙ get_result-success (numbered c') buffer_size latency (part_of offset size value) [] s'
            fits)
