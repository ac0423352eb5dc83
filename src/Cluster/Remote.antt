-- ===== src/Cluster/Remote.antt =====
-- `Connection::send` and `receive`, the remote operations of `Cluster`, and `connect_to_seeds`
-- (src/network/cluster.cpp). The streams are of the Elio library: `Network` says whether a connection is
-- made, whether a message is written, and which bytes a connection then gives before it ends.
use el_cache.Common.{
  ℕ, suc, ◌-◌, ◌%◌, ◌^◌, Bool, false, Option, none, some, List, [], ◌∷◌, ◌++◌, ltb, if◌then◌else◌,
  ◌&&◌, length, take, drop, Completion, returned, threw,
}
use el_cache.Range.{Range}
use el_cache.Codec.Parsing.{Result, ok, fail}
use el_cache.Codec.Fields.{NodeInfo}
use el_cache.Codec.Messages
use el_cache.Codec.Messages.{
  Message, Metadata, get_response, put_response, delete_response, check_response,
  get_chunk_response, hello_ack,
}
use el_cache.Codec.{Header, header_size, parse_header, encode, decode}
use el_cache.Text.{rfind_text, stoll}
use el_cache.Cluster.{Cluster, handle_node_update, change_node, set_connection}
mod Tests

-- What `receive` ends in, with the bytes that are left: a message, none, or the exception of
-- `parse_header`, which nothing catches.
pub data Received : Type 0 where
  message : Message → List ℕ → Received
  nothing : Received
  thrown : Received

-- The decoded message, with the bytes that are left.
unfoldable pub give_message : Result (Message × Header) → List ℕ → Received
give_message (ok (msg, hdr)) rest = message msg rest
give_message (fail e) rest = nothing

-- The body behind a header.
unfoldable pub receive_body : Header → List ℕ → List ℕ → Received
receive_body hdr header input =
    if ltb (length input) hdr.payload_length
    then nothing
    else give_message (decode (header ++ take hdr.payload_length input))
        (drop hdr.payload_length input)

unfoldable pub receive_behind : Result (Header × List ℕ) → List ℕ → List ℕ → Received
receive_behind (ok (hdr, rest)) header input = receive_body hdr header input
receive_behind (fail e) header input = thrown

unfoldable pub receive : List ℕ → Received
receive input =
    if ltb (length input) header_size
    then nothing
    else receive_behind (parse_header (take header_size input)) (take header_size input)
        (drop header_size input)

-- Other nodes, from one connection: `deliver` gives nothing where the write fails, and otherwise the bytes
-- that the connection gives afterwards.
pub record Network : Type 1 where
  pub State : Type 0
  pub connect : State → List ℕ → ℕ → State × Option ℕ
  pub is_connected : State → ℕ → Bool
  pub deliver : State → ℕ → List ℕ → State × Option (List ℕ)
  pub close : State → ℕ → State
  pub now : State → ℕ

-- The answer of a remote operation: the response, or why there is none.
pub data Exchange : Type 0 where
  not_connected : Exchange
  not_sent : Exchange
  no_response : Exchange
  response : Message → Exchange
  failed : Exchange

-- `AvailabilityResult` as `remote_check` fills it.
pub record RemoteAvailability : Type 0 where
  pub exists_there : Bool
  pub metadata : Option Metadata
  pub available_ranges : List Range

-- The `ErrorCode` of a network error.
abbrev network_error : ℕ
network_error = 5

unfoldable pub answer_of : Received → Exchange
answer_of (message m rest) = response m
answer_of nothing = no_response
answer_of thrown = failed

-- Nothing where the message was not written, and otherwise the bytes that come back.
unfoldable pub read_answer : Option (List ℕ) → Exchange
read_answer none = not_sent
read_answer (some bytes) = answer_of (receive bytes)

abbrev pub unknown_value : RemoteAvailability
unknown_value = record { exists_there = false; metadata = none; available_ranges = [] }

-- What the remote operations make of an answer.
unfoldable pub read_of : Exchange → Completion (Option (ℕ × Option Metadata × List ℕ × Range))
read_of (response (get_response result metadata bytes actual)) =
    returned (some (result, metadata, bytes, actual))
read_of failed = threw
read_of _ = returned none

unfoldable pub availability_of : Exchange → Completion RemoteAvailability
availability_of (response (check_response found metadata ranges)) =
    returned (record { exists_there = found; metadata = metadata; available_ranges = ranges })
availability_of failed = threw
availability_of _ = returned unknown_value

unfoldable pub chunk_of : Exchange → Completion (Option (List ℕ))
chunk_of (response (get_chunk_response found bytes)) =
    returned (if found && ltb 0 (length bytes) then some bytes else none)
chunk_of failed = threw
chunk_of _ = returned none

-- The code of a status: that of the response, or a network error.
unfoldable pub put_status : Exchange → Completion ℕ
put_status (response (put_response code text)) = returned code
put_status failed = threw
put_status _ = returned network_error

unfoldable pub delete_status : Exchange → Completion ℕ
delete_status (response (delete_response code existed)) = returned code
delete_status failed = threw
delete_status _ = returned network_error

module _ (net : Network) where
  -- `send` and `receive` on a connection.
  unfoldable pub call : net.State → ℕ → Message → net.State × Exchange
  call s conn msg =
      let (s', input) = net.deliver s conn (encode msg 0 (net.now s)) in (s', read_answer input)

  -- The open connection of a node, or a new one.
  unfoldable pub connection_of : net.State → Option ℕ → List ℕ → ℕ → net.State × Option ℕ
  connection_of s known address port =
      let fresh = net.connect s address port in
      elim known [
        | none ↦ fresh
        | some conn ↦ if net.is_connected s conn then (s, some conn) else fresh
      ]

  -- The part that all remote operations share: the state, the node's connection and the answer.
  unfoldable pub exchange :
      net.State → Option ℕ → List ℕ → ℕ → Message → net.State × Option ℕ × Exchange
  unfolding connection_of call
  exchange s known address port msg =
      let (s', conn) = connection_of s known address port in
      elim conn [
        | none ↦ (s', known, not_connected)
        | some i ↦ let (s'', answer) = call s' i msg in (s'', some i, answer)
      ]

  unfoldable pub remote_get :
      net.State
      → Option ℕ
      → List ℕ
      → ℕ
      → List ℕ
      → Option Range
      → net.State × Option ℕ × Completion (Option (ℕ × Option Metadata × List ℕ × Range))
  remote_get s known address port key range =
      let (s', conn, answer) = exchange s known address port (Messages.get key false range) in
      (s', conn, read_of answer)

  unfoldable pub remote_put :
      net.State
      → Option ℕ
      → List ℕ
      → ℕ
      → List ℕ
      → List ℕ
      → Option ℕ
      → ℕ
      → net.State × Option ℕ × Completion ℕ
  remote_put s known address port key value ttl flags =
      let (s', conn, answer) = exchange s known address port (Messages.put key value ttl flags) in
      (s', conn, put_status answer)

  unfoldable pub remote_delete :
      net.State → Option ℕ → List ℕ → ℕ → List ℕ → net.State × Option ℕ × Completion ℕ
  remote_delete s known address port key =
      let (s', conn, answer) = exchange s known address port (Messages.delete key) in
      (s', conn, delete_status answer)

  unfoldable pub remote_check :
      net.State
      → Option ℕ
      → List ℕ
      → ℕ
      → List ℕ
      → Option Range
      → net.State × Option ℕ × Completion RemoteAvailability
  remote_check s known address port key range =
      let (s', conn, answer) = exchange s known address port (Messages.check key range) in
      (s', conn, availability_of answer)

  -- The bytes of the chunk, if there are any. Its id is sent alone, with offset and length 0.
  unfoldable pub remote_get_chunk :
      net.State
      → Option ℕ
      → List ℕ
      → ℕ
      → ℕ
      → ℕ
      → net.State × Option ℕ × Completion (Option (List ℕ))
  remote_get_chunk s known address port low high =
      let (s', conn, answer) = exchange s known address port (Messages.get_chunk low high 0 0) in
      (s', conn, chunk_of answer)

-- `std::stoi`, and a `uint16_t` of it.
unfoldable pub seed_port : List ℕ → Option ℕ
unfolding stoll
seed_port text = elim (stoll text) [
  | none ↦ none
  | some (negative, n) ↦
      if negative
      then if ltb (2 ^ 31) n then none else some ((2 ^ 31 - n) % 2 ^ 16)
      else if ltb n (2 ^ 31)
      then some (n % 2 ^ 16)
      else none
]

module _ (net : Network) (point : ℕ → ℕ → ℕ) where
  -- The node of a seed that has accepted, and its connection.
  unfoldable pub join : Cluster → NodeInfo → ℕ → Cluster
  join c info conn =
      let c' = handle_node_update point c info in
      record c' { nodes = change_node info.id (set_connection conn) c'.nodes }

  -- What a seed's answer leads to; any but an accepting one closes the connection.
  unfoldable pub join_answer : Cluster → net.State → ℕ → Exchange → Option (Cluster × net.State)
  join_answer c s conn failed = none
  join_answer c s conn (response (hello_ack sender accepted reason)) =
      if accepted then some (join c sender conn, s) else some (c, net.close s conn)
  join_answer c s conn _ = some (c, net.close s conn)

  -- One seed, "host:port"; an exception ends the loop.
  unfoldable pub connect_to_seed :
      Cluster → net.State → NodeInfo → List ℕ → List ℕ → Option (Cluster × net.State)
  connect_to_seed c s local_info name seed = elim (rfind_text (58 ∷ []) seed) [
    | none ↦ some (c, s)
    | some i ↦ elim (seed_port (drop (suc i) seed)) [
      | none ↦ none
      | some port ↦
          let (s', conn) = net.connect s (take i seed) port in
          elim conn [
            | none ↦ some (c, s')
            | some k ↦
                let (s'', answer) = call net s' k (Messages.hello local_info name []) in
                join_answer c s'' k answer
          ]
    ]
  ]

  unfoldable pub connect_to_seeds :
      Cluster → net.State → NodeInfo → List ℕ → List (List ℕ) → Option (Cluster × net.State)
  connect_to_seeds c s local_info name [] = some (c, s)
  connect_to_seeds c s local_info name (seed ∷ seeds) =
      elim (connect_to_seed c s local_info name seed) [
        | none ↦ none
        | some (c', s') ↦ connect_to_seeds c' s' local_info name seeds
      ]
