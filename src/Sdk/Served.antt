-- ===== src/Sdk/Served.antt =====
-- What the server does with the requests of a client: each is carried out and answered under its own number,
-- one after another.
use el_cache.Common.{
  drop-append, take-append, ℕ, zero, suc, ◌+◌, ◌%◌, ◌^◌, ◌≡◌, ◌≤◌, ◌<◌, refl, ap, ◌∙◌, false,
  Option, some, List, [], ◌∷◌, ◌++◌, arith, length, length-append, take, drop, ltb, u32_mod,
  u64_mod, Bool-cases, inl, inr, All,
}
use mathlib.Core.List.{append_assoc}
use el_cache.Wire.{encode_le, encode_header}
use el_cache.Wire.Code
use el_cache.Wire.Headers.{IsHeader, encode_header-IsHeader}
use el_cache.UnixServer.{
  Server, Handled, reply, silent, fault, do_get, do_put, do_delete, do_create, do_write,
  do_finalize, dispatch, handle_get, handle_put, handle_delete, handle_create_sparse,
  handle_write_range, handle_finalize, closed, sent, process_request, handle_client, go_on,
}
use el_cache.Sdk.{
  key_field, has_range, range_field, get_payload, put_payload, create_payload, write_payload,
  message,
}
use el_cache.Sdk.Requests.{
  parse_key_alone, parse_get_whole, parse_get_range, parse_put-put_payload,
  parse_create-create_payload, parse_write-write_payload,
}

-- The requests of the client library.
pub data Request : Type 0 where
  get_of : List ℕ → ℕ → ℕ → Request
  put_of : List ℕ → List ℕ → ℕ → ℕ → Request
  delete_of : List ℕ → Request
  create_of : List ℕ → ℕ → ℕ → ℕ → Request
  write_of : List ℕ → ℕ → List ℕ → Request
  finalize_of : List ℕ → Request

abbrev pub code_of : Request → ℕ
code_of (get_of key offset size) = Code.get
code_of (put_of key value ttl_seconds flags) = Code.put
code_of (delete_of key) = Code.delete
code_of (create_of key total_size ttl_seconds flags) = Code.create_sparse
code_of (write_of key offset buf) = Code.write_range
code_of (finalize_of key) = Code.finalize

abbrev pub payload_of : Request → List ℕ
payload_of (get_of key offset size) = get_payload key offset size
payload_of (put_of key value ttl_seconds flags) = put_payload key value ttl_seconds flags
payload_of (delete_of key) = key_field key
payload_of (create_of key total_size ttl_seconds flags) =
    create_payload key total_size ttl_seconds flags
payload_of (write_of key offset buf) = write_payload key offset buf
payload_of (finalize_of key) = key_field key

-- The fields of a request fit their types.
abbrev pub FieldsFit : Request → Type 0
FieldsFit (get_of key offset size) =
    (length key + 16 < u32_mod) × (offset < u64_mod) × (size < u64_mod)
FieldsFit (put_of key value ttl_seconds flags) =
    (length key + 16 < u32_mod) × (length value < u32_mod)
FieldsFit (delete_of key) = length key + 16 < u32_mod
FieldsFit (create_of key total_size ttl_seconds flags) =
    (length key + 16 < u32_mod) × (total_size < u64_mod)
FieldsFit (write_of key offset buf) =
    (length key + 16 < u32_mod) × (offset < u64_mod) × (length buf < u32_mod)
FieldsFit (finalize_of key) = length key + 16 < u32_mod

pub record Fits (r : Request) : Type 0 where
  pub fields : FieldsFit r
  pub whole : length (payload_of r) < u32_mod

-- The bytes of requests one behind the other, each with its number.
unfoldable pub stream_of : ℕ → List (ℕ × Request) → List ℕ
stream_of sent_at [] = []
stream_of sent_at ((request_id, r) ∷ l) =
    message (code_of r) request_id sent_at (payload_of r) ++ stream_of sent_at l

length-message :
    (code request_id sent_at : ℕ) (payload rest : List ℕ)
    → length rest < length (message code request_id sent_at payload ++ rest)
unfolding message encode_header encode_le
length-message code request_id sent_at payload rest = omega (arith, length-append payload rest)

module _ (dec : Discrete (List ℕ)) where
  -- What a request asks of the server.
  abbrev pub perform : Server → Request → Handled
  perform s (get_of key offset size) = do_get dec s key (has_range offset size) offset size
  perform s (put_of key value ttl_seconds flags) = do_put dec s key value
  perform s (delete_of key) = do_delete dec s key
  perform s (create_of key total_size ttl_seconds flags) = do_create dec s key total_size
  perform s (write_of key offset buf) = do_write dec s key offset buf
  perform s (finalize_of key) = do_finalize dec s key

  handle_get-payload :
      (s : Server) (key : List ℕ) (offset size : ℕ)
      → FieldsFit (get_of key offset size)
      → handle_get dec s (get_payload key offset size)
        ≡ do_get dec s key (has_range offset size) offset size
  unfolding handle_get get_payload range_field
  handle_get-payload s key offset size f = elim (Bool-cases (has_range offset size)) [
    | inl ranged ↦
        rw (ranged, handle_get, parse_get_range key offset size (omega arith) f.1 f.2) refl
    | inr whole ↦
        let a : offset ≡ 0 = ground arith in
        let b : size ≡ 0 = ground arith in
        rw (whole, handle_get, parse_get_whole key (omega arith), a, b) refl
  ]

  code_bound : (r : Request) → code_of r < 2 ^ 16
  code_bound (get_of key offset size) = omega arith
  code_bound (put_of key value ttl_seconds flags) = omega arith
  code_bound (delete_of key) = omega arith
  code_bound (create_of key total_size ttl_seconds flags) = omega arith
  code_bound (write_of key offset buf) = omega arith
  code_bound (finalize_of key) = omega arith

  dispatch-perform :
      (s : Server) (r : Request)
      → FieldsFit r
      → dispatch dec s (code_of r) (payload_of r) ≡ perform s r
  unfolding dispatch handle_put handle_delete handle_create_sparse handle_write_range
      handle_finalize
  dispatch-perform s (get_of key offset size) f = handle_get-payload s key offset size f
  dispatch-perform s (put_of key value ttl_seconds flags) f =
      rw (parse_put-put_payload key value ttl_seconds flags (omega arith) f.1) refl
  dispatch-perform s (delete_of key) f = rw (parse_key_alone key (omega arith)) refl
  dispatch-perform s (create_of key total_size ttl_seconds flags) f =
      rw (parse_create-create_payload key total_size ttl_seconds flags (omega arith) f.1) refl
  dispatch-perform s (write_of key offset buf) f =
      rw (parse_write-write_payload key offset buf (omega arith) f.1 f.2) refl
  dispatch-perform s (finalize_of key) f = rw (parse_key_alone key (omega arith)) refl

  process_request-IsHeader :
      (s : Server) (now : ℕ) (input : List ℕ) (msg_type len request_id : ℕ) (rest : List ℕ)
      → IsHeader input msg_type len request_id rest
      → len ≤ length rest
      → process_request dec s now input
        ≡ sent request_id now (drop len rest) (dispatch dec s msg_type (take len rest)) s
  unfolding process_request
  process_request-IsHeader s now input msg_type len request_id rest h enough =
      let all : ltb (length rest) len ≡ false = ground arith in
      rw
        (
          h.long_enough, process_request, h.magic, h.behind, h.length_field, h.type_field,
          h.id_field, all,
        )
        refl

  -- A request of the client library, whose fields fit their types, is carried out by the server and answered
  -- under its own number, whatever follows it.
  pub process_request-message :
      (s : Server) (r : Request) (request_id sent_at now : ℕ) (rest : List ℕ)
      → Fits r
      → request_id < u32_mod
      → process_request dec s now (message (code_of r) request_id sent_at (payload_of r) ++ rest)
        ≡ sent request_id now rest (perform s r) s
  unfolding message
  process_request-message s r request_id sent_at now rest f small =
      let payload : List ℕ = payload_of r in
      let e : length payload % u32_mod ≡ length payload = omega (arith, f.whole) in
      let head =
        encode_header-IsHeader (code_of r) (length payload) request_id sent_at (payload ++ rest)
          (code_bound r) f.whole small in
      rw
        (
          e,
          append_assoc (encode_header (code_of r) (length payload) request_id sent_at) payload rest,
        )
        (process_request-IsHeader s now _ (code_of r) (length payload) request_id (payload ++ rest)
            head (omega (arith, length-append payload rest))
          ∙ rw (take-append payload rest, drop-append payload rest, dispatch-perform s r f.fields)
              refl)

  process_request_end : (s : Server) (now : ℕ) → process_request dec s now [] ≡ closed
  unfolding process_request
  process_request_end s now = refl

  -- The requests one after another, with the number of each: the server and the responses in order; `none`
  -- where one of them faults.
  unfoldable pub perform_all : Server → ℕ → List (ℕ × Request) → Option (Server × List ℕ)
  perform_all s now [] = some (s, [])
  perform_all s now ((request_id, r) ∷ l) =
      go_on s (sent request_id now [] (perform s r) s) (λ s' rest. perform_all s' now l)

  after_sent :
      (fuel : ℕ) (s : Server) (now request_id : ℕ) (rest : List ℕ) (l : List (ℕ × Request))
      (h : Handled)
      → ((s' : Server) → handle_client dec fuel s' now rest ≡ perform_all s' now l)
      → go_on s (sent request_id now rest h s) (λ s' rest'. handle_client dec fuel s' now rest')
        ≡ go_on s (sent request_id now [] h s) (λ s' rest'. perform_all s' now l)
  unfolding sent
  after_sent fuel s now request_id rest l (reply s' code response) ih = rw (ih s') refl
  after_sent fuel s now request_id rest l silent ih = rw (ih s) refl
  after_sent fuel s now request_id rest l fault ih = refl

  -- Requests of the client library, whose fields fit their types, sent one behind the other on a connection
  -- that is closed then: the server's loop does what carrying them out in order does, each answered under
  -- its number, a fault included.
  pub handle_client-stream_of :
      (fuel : ℕ) (s : Server) (now sent_at : ℕ) (l : List (ℕ × Request))
      → All (λ e. (e.0 < u32_mod) × Fits e.1) l
      → length (stream_of sent_at l) < fuel
      → handle_client dec fuel s now (stream_of sent_at l) ≡ perform_all s now l
  unfolding handle_client perform_all stream_of
  handle_client-stream_of zero s now sent_at l all h = absurd (omega arith)
  handle_client-stream_of (suc fuel) s now sent_at [] all h =
      ap (λ p. go_on s p (λ s' rest. handle_client dec fuel s' now rest))
        (process_request_end s now)
  handle_client-stream_of (suc fuel) s now sent_at ((request_id, r) ∷ l) all h =
      let rest : List ℕ = stream_of sent_at l in
      let shorter : length rest < fuel =
        omega (arith, length-message (code_of r) request_id sent_at (payload_of r) rest) in
      ap (λ p. go_on s p (λ s' rest'. handle_client dec fuel s' now rest'))
        (process_request-message s r request_id sent_at now rest all.0.1 all.0.0)
      ∙ after_sent fuel s now request_id rest l (perform s r)
          (λ s'. handle_client-stream_of fuel s' now sent_at l all.1 shorter)
