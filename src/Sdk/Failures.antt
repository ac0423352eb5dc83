-- ===== src/Sdk/Failures.antt =====
-- What a client gets back where the server has no value, or more of one than the client has room for.
use el_cache.Common.{
  ℕ, ◌+◌, ◌-◌, ◌%◌, ◌≡◌, ◌≤◌, ◌<◌, refl, ap, ◌∙◌, true, false, none, some, List, [], ◌++◌, arith,
  length, length-append, drop, ltb, u32_mod, u64_mod, sub64_exact, Option-cases, inl, inr,
}
use el_cache.Wire.{encode_le, decode_le, encode_u32, encode_header, header_size}
use el_cache.Wire.Code
use el_cache.Wire.Headers.{encode_header-IsHeader}
use el_cache.UnixServer
use el_cache.UnixServer.{Server, reply, put_value, remove_value, value_of, do_get, do_put, slice}
use el_cache.Sdk.{
  Client, success, has_range, answer, get_response, delete_response, max_key, delete_response,
  not_found, get_result, buffer_too_small, protocol,
}
use el_cache.Sdk.Requests.{length-key_field}
use el_cache.UnixServer.{do_delete}
use el_cache.Sdk.Served.{get_of, delete_of, Fits}
use el_cache.Sdk.Exchange.{any_response-IsHeader, part_of}
use el_cache.Sdk.Calls.{
  completed, outcome, and_then, IsReady, numbered, call, call_get, call_delete, call-message,
  get_request_fits, delete_request_fits,
}
use el_cache.Sdk.Results.{
  length-get_response, value_of-remove_value, get_Fits, found_part, get_response-sent,
}

module _ (dec : Discrete (List ℕ)) where
  missing_part :
      (s : Server) (key : List ℕ) (offset size : ℕ)
      → value_of dec key s.values ≡ none
      → do_get dec s key (has_range offset size) offset size
        ≡ reply s Code.get_response (UnixServer.get_response 1 [])
  unfolding do_get
  missing_part s key offset size e = rw (e, do_get) refl

  call_get-missing :
      (s : Server) (now latency : ℕ) (c : Client) (key : List ℕ) (offset size buffer_size : ℕ)
      → IsReady c
      → length key ≤ max_key
      → offset < u64_mod
      → size < u64_mod
      → value_of dec key s.values ≡ none
      → call_get dec s now latency c [] key offset size buffer_size
        ≡ completed s (get_result (numbered c) buffer_size latency 1 0 (some []) [])
  unfolding call_get
  call_get-missing s now latency c key offset size buffer_size ready short ho hs e =
      ap (λ started. call dec s now c [] started (λ c'. get_response c' buffer_size latency))
        (get_request_fits c now key offset size ready short)
      ∙ call-message dec s s now c (numbered c) [] (get_of key offset size) c.next_request_id
          Code.get_response (UnixServer.get_response 1 []) _
          (get_Fits dec key offset size short ho hs) ready.id_bound
          (missing_part s key offset size e)
      ∙ ap (completed s) (
          get_response-sent dec (numbered c) buffer_size latency 1 c.next_request_id now []
            (omega arith) ready.id_bound (omega (arith, ready.recv_room)) ready.recv_bound)

  delete_response-sent :
      (c : Client) (request_id now : ℕ)
      → request_id < u32_mod
      → header_size + 9 ≤ c.recv_buffer_size
      → delete_response c (encode_header Code.delete_response 4 request_id now ++ encode_u32 0)
        ≡ answer c success [] []
  unfolding delete_response encode_le
  delete_response-sent c request_id now hi room =
      let head =
        encode_header-IsHeader Code.delete_response 4 request_id now (encode_u32 0) (omega arith)
          (omega arith) hi in
      any_response-IsHeader c _ _ Code.delete_response 4 request_id (encode_u32 0) head
        (omega arith) (omega arith)

  call_delete-removed :
      (s : Server) (now : ℕ) (c : Client) (key : List ℕ)
      → IsReady c
      → length key ≤ max_key
      → call_delete dec s now c [] key
        ≡ completed
            (record s { values = remove_value dec key s.values })
            (answer (numbered c) success [] [])
  unfolding call_delete do_delete encode_le
  call_delete-removed s now c key ready short =
      let s' : Server = record s { values = remove_value dec key s.values } in
      let fits : Fits (delete_of key) = record {
        fields = omega arith;
        whole = omega (arith, length-key_field key);
      } in
      ap (λ started. call dec s now c [] started (λ c'. delete_response c'))
        (delete_request_fits c now key ready short)
      ∙ call-message dec s s' now c (numbered c) [] (delete_of key) c.next_request_id
          Code.delete_response (encode_u32 0) _ fits ready.id_bound refl
      ∙ ap (completed s')
          (delete_response-sent (numbered c) c.next_request_id now ready.id_bound ready.recv_room)

  numbered-IsReady : (c : Client) → IsReady c → IsReady (numbered c)
  numbered-IsReady c ready = record {
    is_connected = ready.is_connected;
    id_bound = omega arith;
    send_room = ready.send_room;
    send_bound = ready.send_bound;
    recv_room = ready.recv_room;
    recv_bound = ready.recv_bound;
  }

  -- A get after a delete of the same key on the same connection finds nothing, whatever the range.
  pub call_get-call_delete :
      (s : Server) (now latency : ℕ) (c : Client) (key : List ℕ) (offset size buffer_size : ℕ)
      → IsReady c
      → length key ≤ max_key
      → offset < u64_mod
      → size < u64_mod
      → outcome (
          and_then
            (call_delete dec s now c [] key)
            (λ s' c' pending. call_get dec s' now latency c' pending key offset size buffer_size))
        ≡ some (not_found, [])
  unfolding get_result
  call_get-call_delete s now latency c key offset size buffer_size ready short ho hs =
      let s' : Server = record s { values = remove_value dec key s.values } in
      rw (call_delete-removed s now c key ready short) (
        ap outcome (
          call_get-missing s' now latency (numbered c) key offset size buffer_size
            (numbered-IsReady c ready) short ho hs (value_of-remove_value dec key s.values)))

  -- A response that does not fit the receive buffer stays in the socket behind its header.
  get_response_too_large :
      (c : Client) (buffer_size latency code request_id now : ℕ) (bytes : List ℕ)
      → request_id < u32_mod
      → header_size + 9 ≤ c.recv_buffer_size
      → c.recv_buffer_size < header_size + 9 + length bytes
      → c.recv_buffer_size < u32_mod
      → 9 + length bytes < u32_mod
      → let response = UnixServer.get_response code bytes in
        get_response c buffer_size latency
          (encode_header Code.get_response (length response % u32_mod) request_id now ++ response)
        ≡ answer c buffer_too_small [] response
  unfolding get_response
  get_response_too_large c buffer_size latency code request_id now bytes hi room large word small =
      let response = UnixServer.get_response code bytes in
      let size = length-get_response code bytes in
      let e : length response % u32_mod ≡ length response = omega (arith, size) in
      let head =
        encode_header-IsHeader Code.get_response (length response) request_id now response
          (omega arith) (omega (arith, size)) hi in
      let exact = sub64_exact c.recv_buffer_size header_size (omega arith) (omega arith) in
      let over : ltb (c.recv_buffer_size - header_size) (length response) ≡ true =
        ground (arith, size) in
      rw
        (
          e, head.long_enough, get_response, head.magic, head.behind, head.length_field,
          head.type_field, exact, over,
        )
        refl

  -- The bytes of a response that was not read are no header.
  get_response_behind :
      (c : Client) (buffer_size latency : ℕ) (bytes header rest : List ℕ)
      → header_size ≤ length header
      → get_response c buffer_size latency (UnixServer.get_response 0 bytes ++ (header ++ rest))
        ≡ answer c protocol []
            (drop header_size (UnixServer.get_response 0 bytes ++ (header ++ rest)))
  unfolding get_response UnixServer.get_response encode_le decode_le
  get_response_behind c buffer_size latency bytes header rest h =
      let long : ltb (length (UnixServer.get_response 0 bytes ++ (header ++ rest))) header_size
          ≡ false =
        ground (
          arith,
          length-append (UnixServer.get_response 0 bytes) (header ++ rest),
          length-append header rest,
        ) in
      rw long refl

  call_get_unread :
      (s : Server) (now latency : ℕ) (c : Client) (key : List ℕ) (offset size buffer_size : ℕ)
      (bytes response : List ℕ)
      → IsReady c
      → length key ≤ max_key
      → offset < u64_mod
      → size < u64_mod
      → do_get dec s key (has_range offset size) offset size ≡ reply s Code.get_response response
      → outcome (
          call_get dec s now latency c
            (UnixServer.get_response 0 bytes)
            key
            offset
            size
            buffer_size)
        ≡ some (protocol, [])
  unfolding call_get encode_header encode_le
  call_get_unread s now latency c key offset size buffer_size bytes response ready short ho hs e =
      ap outcome (
        ap
          (λ started.
            call dec s now c (UnixServer.get_response 0 bytes) started
              (λ c'. get_response c' buffer_size latency))
          (get_request_fits c now key offset size ready short)
        ∙ call-message dec s s now c (numbered c) (UnixServer.get_response 0 bytes)
            (get_of key offset size) c.next_request_id Code.get_response response _
            (get_Fits dec key offset size short ho hs) ready.id_bound e
        ∙ ap (completed s) (
            get_response_behind (numbered c) buffer_size latency bytes
              (encode_header Code.get_response (length response % u32_mod) c.next_request_id now)
              response (omega arith)))

  get_is_answered :
      (s : Server) (key : List ℕ) (offset size : ℕ)
      → (response : List ℕ) × (do_get dec s key (has_range offset size) offset size
          ≡ reply s Code.get_response response)
  get_is_answered s key offset size = elim (Option-cases (value_of dec key s.values)) [
    | inl none_of ↦ (UnixServer.get_response 1 [], missing_part s key offset size none_of)
    | inr (value, found) ↦ (
      UnixServer.get_response 0 (part_of offset size value),
      found_part dec s key value offset size found,
    )
  ]

  call_get_refused :
      (s : Server) (now latency : ℕ) (c : Client) (key value : List ℕ) (offset size buffer_size : ℕ)
      → IsReady c
      → length key ≤ max_key
      → offset < u64_mod
      → size < u64_mod
      → value_of dec key s.values ≡ some value
      → c.recv_buffer_size < header_size + 9 + length (part_of offset size value)
      → 9 + length (part_of offset size value) < u32_mod
      → call_get dec s now latency c [] key offset size buffer_size
        ≡ completed s (
            answer
              (numbered c)
              buffer_too_small
              []
              (UnixServer.get_response 0 (part_of offset size value)))
  unfolding call_get
  call_get_refused s now latency c key value offset size buffer_size ready short ho hs found large
        small =
      let bytes : List ℕ = part_of offset size value in
      ap (λ started. call dec s now c [] started (λ c'. get_response c' buffer_size latency))
        (get_request_fits c now key offset size ready short)
      ∙ call-message dec s s now c (numbered c) [] (get_of key offset size) c.next_request_id
          Code.get_response (UnixServer.get_response 0 bytes) _
          (get_Fits dec key offset size short ho hs) ready.id_bound
          (found_part dec s key value offset size found)
      ∙ ap (completed s) (
          get_response_too_large (numbered c) buffer_size latency 0 c.next_request_id now bytes
            ready.id_bound ready.recv_room large ready.recv_bound small)

  -- Two gets of keys of at most 8192 bytes, with offsets and sizes that fit their types, on a ready
  -- connection: where the server has the value of the first and the response does not fit the receive buffer,
  -- but its payload is shorter than 2 ^ 32 bytes, the second get fails as a protocol error: the client reads
  -- the rest of the first response as a header.
  pub call_get-call_get :
      (s : Server) (now latency : ℕ) (c : Client) (key value key' : List ℕ)
      (offset size buffer_size offset' size' buffer_size' : ℕ)
      → IsReady c
      → length key ≤ max_key
      → length key' ≤ max_key
      → offset < u64_mod
      → size < u64_mod
      → offset' < u64_mod
      → size' < u64_mod
      → value_of dec key s.values ≡ some value
      → c.recv_buffer_size < header_size + 9 + length (part_of offset size value)
      → 9 + length (part_of offset size value) < u32_mod
      → outcome (
          and_then (call_get dec s now latency c [] key offset size buffer_size) (λ s' c' pending.
            call_get dec s' now latency c' pending key' offset' size' buffer_size'))
        ≡ some (protocol, [])
  call_get-call_get s now latency c key value key' offset size buffer_size offset' size'
        buffer_size' ready short short' ho hs ho' hs' found large small =
      let (response, e) = get_is_answered s key' offset' size' in
      rw
        (call_get_refused s now latency c key value offset size buffer_size ready short ho hs found
          large small)
        (call_get_unread s now latency (numbered c) key' offset' size' buffer_size'
          (part_of offset size value) response (numbered-IsReady c ready) short' ho' hs' e)
