-- ===== src/Sdk/Calls.antt =====
-- Whole calls: the client builds its request, the server of the connection carries it out, and the client
-- takes the response apart. A client keeps the bytes of its socket that it has not read.
use el_cache.Common.{
  ℕ, ◌+◌, ◌%◌, ◌≡◌, ◌≤◌, ◌<◌, refl, sym, ap, ◌∙◌, true, false, Option, none, some, List, [], ◌∷◌,
  ◌++◌, arith, length, length-append, ltb, if◌then◌else◌, u32_mod, Bool-cases, inl, inr,
}
use mathlib.Core.List.{append-nil}
use el_cache.Wire.{encode_le, encode_u32, encode_header, header_size}
use el_cache.Wire.Code
use el_cache.Wire.Numbers.{length-encode_le}
use el_cache.UnixServer.{Server, reply, sent, closed, next, crashed, process_request}
use el_cache.Sdk
use el_cache.Sdk.{
  Client, SdkError, success, Started, refused, request, has_range, Ended, answer, stale,
  get_request, put_request, delete_request, checked, send, message, get_payload, put_payload,
  key_field, range_field, ttl_field, get_response, put_response, delete_response, max_key,
  not_found, connection,
}
use el_cache.Sdk.Requests.{length-key_field}
use el_cache.Sdk.Served.{Request, Fits, code_of, payload_of, perform, process_request-message}

-- The server after a call with what the call returns; or the server crashed.
pub data Called : Type 0 where
  completed : Server → Ended → Called
  crash : Called

-- The code that a call returns, and the bytes for the caller.
abbrev pub outcome : Called → Option (SdkError × List ℕ)
outcome (completed s (answer c code bytes pending)) = some (code, bytes)
outcome (completed s Sdk.Ended.overrun) = none
outcome (completed s stale) = none
outcome crash = none

-- A second call on the same connection.
abbrev pub and_then : Called → (Server → Client → List ℕ → Called) → Called
and_then (completed s (answer c code bytes pending)) f = f s c pending
and_then (completed s Sdk.Ended.overrun) f = completed s Sdk.Ended.overrun
and_then (completed s stale) f = completed s stale
and_then crash f = crash

-- A connected client with buffers for any key and for the fixed part of a response.
pub record IsReady (c : Client) : Type 0 where
  pub is_connected : c.connected ≡ true
  pub id_bound : c.next_request_id < u32_mod
  pub send_room : header_size + 4 + max_key + 21 ≤ c.send_buffer_size
  pub send_bound : c.send_buffer_size < u32_mod
  pub recv_room : header_size + 9 ≤ c.recv_buffer_size
  pub recv_bound : c.recv_buffer_size < u32_mod

abbrev pub numbered : Client → Client
numbered c = record c { next_request_id = (c.next_request_id + 1) % u32_mod }

module _ (dec : Discrete (List ℕ)) where
  unfoldable pub call : Server → ℕ → Client → List ℕ → Started → (Client → List ℕ → Ended) → Called
  call s now c pending (refused code) receive = completed s (answer c code [] pending)
  call s now c pending Sdk.Started.overrun receive = completed s Sdk.Ended.overrun
  call s now c pending (request c' bytes) receive = elim (process_request dec s now bytes) [
    | closed ↦ completed s (receive c' pending)
    | next s' rest output ↦ completed s' (receive c' (pending ++ output))
    | crashed ↦ crash
  ]

  unfoldable pub call_get : Server → ℕ → ℕ → Client → List ℕ → List ℕ → ℕ → ℕ → ℕ → Called
  call_get s now latency c pending key offset size buffer_size =
      call s now c pending (get_request c now key offset size)
        (λ c'. get_response c' buffer_size latency)

  unfoldable pub call_put : Server → ℕ → ℕ → Client → List ℕ → List ℕ → List ℕ → ℕ → ℕ → Called
  call_put s now latency c pending key value ttl_seconds flags =
      call s now c pending (put_request c now key value ttl_seconds flags)
        (λ c'. put_response c' (length value) latency)

  unfoldable pub call_delete : Server → ℕ → Client → List ℕ → List ℕ → Called
  call_delete s now c pending key =
      call s now c pending (delete_request c now key) (λ c'. delete_response c')

  -- A request that the server answers.
  pub call-message :
      (s s' : Server) (now : ℕ) (c c' : Client) (pending : List ℕ) (r : Request)
      (request_id response_type : ℕ) (response : List ℕ) (receive : Client → List ℕ → Ended)
      → Fits r
      → request_id < u32_mod
      → perform dec s r ≡ reply s' response_type response
      → call s now c pending
          (request c' (message (code_of r) request_id now (payload_of r)))
          receive
        ≡ completed s' (
            receive c' (
              pending
              ++ (encode_header response_type (length response % u32_mod) request_id now
                  ++ response)))
  unfolding call sent
  call-message s s' now c c' pending r request_id response_type response receive fits small e =
      let bytes : List ℕ = message (code_of r) request_id now (payload_of r) in
      let p =
        ap (process_request dec s now) (sym (append-nil bytes))
        ∙ process_request-message dec s r request_id now now [] fits small
        ∙ ap (λ h. sent request_id now [] h s) e in
      ap
        (λ p. elim p [
          | closed ↦ completed s (receive c' pending)
          | next s'' rest output ↦ completed s'' (receive c' (pending ++ output))
          | crashed ↦ crash
        ])
        p

length-range_field : (offset size : ℕ) → length (range_field offset size) ≤ 17
unfolding range_field encode_le
length-range_field offset size = elim (Bool-cases (has_range offset size)) [
  | inl ranged ↦ rw ranged (omega arith)
  | inr whole ↦ rw whole (omega arith)
]

pub length-get_payload :
    (key : List ℕ) (offset size : ℕ) → length (get_payload key offset size) ≤ 4 + length key + 18
unfolding get_payload
length-get_payload key offset size = omega (
  arith,
  length-append (key_field key) (0 ∷ range_field offset size),
  length-key_field key,
  length-range_field offset size,
)

pub length-ttl_field : (ttl_seconds : ℕ) → length (ttl_field ttl_seconds) ≤ 9
unfolding ttl_field encode_le
length-ttl_field ttl_seconds = elim (Bool-cases (ltb 0 ttl_seconds)) [
  | inl timed ↦ rw timed (omega arith)
  | inr kept ↦ rw kept (omega arith)
]

pub length-put_payload :
    (key value : List ℕ) (ttl_seconds flags : ℕ)
    → length (put_payload key value ttl_seconds flags)
      ≤ 4 + length key + 4 + length value + 1 + 8 + 4
unfolding put_payload
length-put_payload key value ttl_seconds flags =
    let tail : List ℕ = ttl_field ttl_seconds ++ encode_u32 flags in
    omega (
      arith,
      length-append (key_field key) (encode_u32 (length value) ++ (value ++ tail)),
      length-key_field key,
      length-append (encode_u32 (length value)) (value ++ tail),
      length-append value tail,
      length-append (ttl_field ttl_seconds) (encode_u32 flags),
      length-ttl_field ttl_seconds,
      length-encode_le 4 (length value),
      length-encode_le 4 flags,
    )

send_fits :
    (c : Client) (message_type now : ℕ) (payload : List ℕ)
    → header_size + length payload ≤ c.send_buffer_size
    → send c message_type now payload
      ≡ request (numbered c) (message message_type c.next_request_id now payload)
unfolding send
send_fits c message_type now payload h =
    let room : ltb c.send_buffer_size (header_size + length payload) ≡ false = ground arith in
    rw room refl

checked_fits :
    (c : Client) (key : List ℕ) (started : Started)
    → c.connected ≡ true
    → length key ≤ max_key
    → checked c key started ≡ started
unfolding checked
checked_fits c key started on h =
    let short : ltb max_key (length key) ≡ false = ground arith in rw (short, on) refl

pub get_request_fits :
    (c : Client) (now : ℕ) (key : List ℕ) (offset size : ℕ)
    → IsReady c
    → length key ≤ max_key
    → get_request c now key offset size
      ≡ request (numbered c) (message Code.get c.next_request_id now (get_payload key offset size))
unfolding get_request
get_request_fits c now key offset size ready short =
    checked_fits c key _ ready.is_connected short
    ∙ send_fits c Code.get now (get_payload key offset size)
        (omega (arith, length-get_payload key offset size, ready.send_room))

pub put_request_fits :
    (c : Client) (now : ℕ) (key value : List ℕ) (ttl_seconds flags : ℕ)
    → IsReady c
    → length key ≤ max_key
    → header_size + 4 + length key + 4 + length value + 1 + 8 + 4 ≤ c.send_buffer_size
    → put_request c now key value ttl_seconds flags
      ≡ request
          (numbered c)
          (message Code.put c.next_request_id now (put_payload key value ttl_seconds flags))
unfolding put_request
put_request_fits c now key value ttl_seconds flags ready short room =
    let needed : ltb c.send_buffer_size
          (header_size + 4 + length key + 4 + length value + 1 + 8 + 4)
        ≡ false =
      ground arith in
    checked_fits c key _ ready.is_connected short
    ∙ rw needed (
        send_fits c Code.put now (put_payload key value ttl_seconds flags)
          (omega (arith, length-put_payload key value ttl_seconds flags)))

pub delete_request_fits :
    (c : Client) (now : ℕ) (key : List ℕ)
    → IsReady c
    → length key ≤ max_key
    → delete_request c now key
      ≡ request (numbered c) (message Code.delete c.next_request_id now (key_field key))
unfolding delete_request
delete_request_fits c now key ready short =
    ap (λ b. if b then send c Code.delete now (key_field key) else refused connection)
      ready.is_connected
    ∙ send_fits c Code.delete now (key_field key)
        (omega (arith, length-key_field key, ready.send_room))
