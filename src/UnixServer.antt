-- ===== src/UnixServer.antt =====
-- `UnixSocketServer` (include/elcache/unix_server.hpp, src/network/unix_server.cpp): the requests of local
-- clients. The coroutines and the threads run the same code on the same global caches, so one model stands
-- for both. The bytes that a client sends are a list; a read that blocks until the client closes its end
-- ends the connection.
use el_cache.Common.{
  ℕ, zero, suc, ◌+◌, ◌-◌, ◌*◌, ◌%◌, Bool, true, false, not, ◌&&◌, Option, none, some, List, [], ◌∷◌,
  ◌++◌, ltb, leb, ◌==◌, if◌then◌else◌, length, take, drop, ite, u32_mod,
}
use el_cache.Sparse
use el_cache.Sparse.{SparseCache, refused, done, success, not_found, incomplete}
use el_cache.Wire.{field, encode_u32, encode_header, header_size, proto_magic}
use el_cache.Wire.Code
pub mod Reading
use Reading.{Read, got, short, ◌>>=◌, ◌>>◌, ensure, number, bytes}
pub mod Faults
mod Tests

-- The values of `g_sync_cache`, and `global_sparse_cache()`.
pub record Server : Type 0 where
  pub values : List (List ℕ × List ℕ)
  pub sparse : SparseCache (List ℕ)

-- What a handler does: the server afterwards with the type and the bytes of the response, or an early
-- return without one. `fault` is a read past the end of the payload or a write outside a buffer.
pub data Handled : Type 0 where
  reply : Server → ℕ → List ℕ → Handled
  silent : Handled
  fault : Handled

abbrev pub answer {ℓ} : {A : Type ℓ} → Read A → (A → Handled) → Handled
answer m f = elim m [ got a ↦ f a | short ↦ silent | Read.fault ↦ fault ]

-- The key at the start of each payload, and the position behind it. The sum `4 + key_len + extra` is one of
-- 32 bits.
unfoldable pub parse_key : ℕ → ℕ → List ℕ → Read (List ℕ × ℕ)
parse_key first extra payload = do
  ensure (leb first (length payload))
  key_len ← number payload 0 4
  ensure (leb ((4 + key_len + extra) % u32_mod) (length payload))
  key ← bytes payload 4 key_len
  got (key, (4 + key_len) % u32_mod)

-- The range of a `Get`, if it has one: its flag, the offset and the length.
unfoldable pub parse_range : List ℕ → ℕ → ℕ → Read (Bool × ℕ × ℕ)
parse_range payload flag pos =
    let given = do
      offset ← number payload pos 8
      size ← number payload (pos + 8) 8
      got (true, offset, size)
    in if flag == 0
      then got (false, 0, 0)
      else if leb (pos + 16) (length payload)
      then given
      else got (true, 0, 0)

unfoldable pub parse_get : List ℕ → Read (List ℕ × Bool × ℕ × ℕ)
parse_get payload = do
  key ← parse_key 4 2 payload
  flag ← number payload (key.1 + 1) 1
  range ← parse_range payload flag (key.1 + 2)
  got (key.0, range.0, range.1, range.2)

unfoldable pub parse_put : List ℕ → Read (List ℕ × List ℕ)
parse_put payload = do
  key ← parse_key 8 4 payload
  value_len ← number payload key.1 4
  ensure (leb (key.1 + 4 + value_len) (length payload))
  value ← bytes payload (key.1 + 4) value_len
  got (key.0, value)

unfoldable pub parse_create : List ℕ → Read (List ℕ × ℕ)
parse_create payload = do
  key ← parse_key 4 8 payload
  total_size ← number payload key.1 8
  got (key.0, total_size)

unfoldable pub parse_write : List ℕ → Read (List ℕ × ℕ × List ℕ)
parse_write payload = do
  key ← parse_key 4 12 payload
  offset ← number payload key.1 8
  data_len ← number payload (key.1 + 8) 4
  ensure (leb (key.1 + 12 + data_len) (length payload))
  buf ← bytes payload (key.1 + 12) data_len
  got (key.0, offset, buf)

-- The bytes of a value that a `Get` asks for.
unfoldable pub slice : Bool → ℕ → ℕ → List ℕ → List ℕ
slice has_range offset size value =
    let available : ℕ = length value - offset in
    let to_copy : ℕ = if ltb 0 size && ltb size available then size else available in
    if has_range
    then if ltb offset (length value) then take to_copy (drop offset value) else []
    else value

-- The response to a `Get`: the code, no metadata, and the bytes.
unfoldable pub get_response : ℕ → List ℕ → List ℕ
get_response code bytes = encode_u32 code ++ (0 ∷ (encode_u32 (length bytes % u32_mod) ++ bytes))

-- `closed` ends the connection; `next` has the server, the bytes that follow the request, and those sent.
pub data Progress : Type 0 where
  closed : Progress
  next : Server → List ℕ → List ℕ → Progress
  crashed : Progress

-- `send_response`
unfoldable pub sent : ℕ → ℕ → List ℕ → Handled → Server → Progress
sent request_id now rest (reply s' type response) s =
    next s' rest (encode_header type (length response % u32_mod) request_id now ++ response)
sent request_id now rest silent s = next s rest []
sent request_id now rest fault s = crashed

-- The bytes of one response before those of the later ones.
abbrev pub prepend : List ℕ → Option (Server × List ℕ) → Option (Server × List ℕ)
prepend output none = none
prepend output (some (s, more)) = some (s, output ++ more)

-- The loop after a request: it ends, or goes on with what follows.
abbrev pub go_on :
    Server → Progress → (Server → List ℕ → Option (Server × List ℕ)) → Option (Server × List ℕ)
go_on s closed more = some (s, [])
go_on s crashed more = none
go_on s (next s' rest output) more = prepend output (more s' rest)

module _ (dec : Discrete (List ℕ)) where
  -- `SyncCache`
  unfoldable pub value_of : List ℕ → List (List ℕ × List ℕ) → Option (List ℕ)
  value_of key [] = none
  value_of key ((k, v) ∷ l) = ite (dec k key) (some v) (value_of key l)

  unfoldable pub remove_value : List ℕ → List (List ℕ × List ℕ) → List (List ℕ × List ℕ)
  remove_value key [] = []
  remove_value key ((k, v) ∷ l) = ite (dec k key) (remove_value key l) ((k, v) ∷ remove_value key l)

  unfoldable pub put_value : List ℕ → List ℕ → List (List ℕ × List ℕ) → List (List ℕ × List ℕ)
  put_value key value l = (key, value) ∷ remove_value key l

  -- What the handlers do with a request that is read.
  unfoldable pub do_get : Server → List ℕ → Bool → ℕ → ℕ → Handled
  do_get s key has_range offset size = elim (value_of key s.values) [
    | none ↦ reply s Code.get_response (get_response 1 [])
    | some value ↦ reply s Code.get_response (get_response 0 (slice has_range offset size value))
  ]

  unfoldable pub do_put : Server → List ℕ → List ℕ → Handled
  do_put s key value =
      reply (record s { values = put_value key value s.values }) Code.put_response (encode_u32 0)

  unfoldable pub do_delete : Server → List ℕ → Handled
  do_delete s key =
      reply (record s { values = remove_value key s.values }) Code.delete_response (encode_u32 0)

  unfoldable pub do_create : Server → List ℕ → ℕ → Handled
  do_create s key total_size =
      let (sparse, created) = Sparse.create dec s.sparse key total_size in
      reply (record s { sparse = sparse }) Code.create_sparse_response
        (encode_u32 (if created then 0 else 1))

  unfoldable pub do_write : Server → List ℕ → ℕ → List ℕ → Handled
  do_write s key offset buf = elim (Sparse.write dec s.sparse key offset buf) [
    | refused ↦
        reply s Code.write_range_response
          (encode_u32 (if Sparse.entry_exists dec s.sparse key then 2 else 1))
    | done sparse ↦ reply (record s { sparse = sparse }) Code.write_range_response (encode_u32 0)
    | Sparse.Outcome.fault ↦ fault
  ]

  unfoldable pub do_finalize : Server → List ℕ → Handled
  do_finalize s key =
      let r = Sparse.finalize dec s.sparse key in
      let s' : Server = record s { sparse = r.0 } in
      elim r.1 [
        | success value ↦
            reply (record s' { values = put_value key value s.values }) Code.finalize_response
              (encode_u32 0)
        | not_found ↦ reply s' Code.finalize_response (encode_u32 1)
        | incomplete ↦ reply s' Code.finalize_response (encode_u32 2)
      ]

  unfoldable pub handle_get : Server → List ℕ → Handled
  handle_get s payload = answer (parse_get payload) (λ r. do_get s r.0 r.1 r.2 r.3)

  unfoldable pub handle_put : Server → List ℕ → Handled
  handle_put s payload = answer (parse_put payload) (λ r. do_put s r.0 r.1)

  unfoldable pub handle_delete : Server → List ℕ → Handled
  handle_delete s payload = answer (parse_key 4 0 payload) (λ r. do_delete s r.0)

  unfoldable pub handle_create_sparse : Server → List ℕ → Handled
  handle_create_sparse s payload = answer (parse_create payload) (λ r. do_create s r.0 r.1)

  unfoldable pub handle_write_range : Server → List ℕ → Handled
  handle_write_range s payload = answer (parse_write payload) (λ r. do_write s r.0 r.1 r.2)

  unfoldable pub handle_finalize : Server → List ℕ → Handled
  handle_finalize s payload = answer (parse_key 4 0 payload) (λ r. do_finalize s r.0)

  -- The switch of `process_request`; a message of another type gets no response.
  unfoldable pub dispatch : Server → ℕ → List ℕ → Handled
  dispatch s msg_type payload =
      if msg_type == Code.get
      then handle_get s payload
      else if msg_type == Code.put
      then handle_put s payload
      else if msg_type == Code.delete
      then handle_delete s payload
      else if msg_type == Code.create_sparse
      then handle_create_sparse s payload
      else if msg_type == Code.write_range
      then handle_write_range s payload
      else if msg_type == Code.finalize
      then handle_finalize s payload
      else silent

  unfoldable pub process_request : Server → ℕ → List ℕ → Progress
  process_request s now input =
      let rest : List ℕ = drop header_size input in
      let payload_len : ℕ = field input 8 4 in
      if ltb (length input) header_size
      then closed
      else if not (field input 0 4 == proto_magic)
      then closed
      else if ltb (length rest) payload_len
      then closed
      else sent (field input 12 4) now (drop payload_len rest)
          (dispatch s (field input 6 2) (take payload_len rest)) s

  -- The loop of `handle_client` on fuel: the server and the bytes sent when the connection ends; `none` for
  -- a fault, or for fuel that ran out. A round takes a header at least, so the bytes are fuel enough.
  unfoldable pub handle_client : ℕ → Server → ℕ → List ℕ → Option (Server × List ℕ)
  handle_client zero s now input = none
  handle_client (suc fuel) s now input =
      go_on s (process_request s now input) (λ s' rest. handle_client fuel s' now rest)
