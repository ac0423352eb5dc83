-- ===== src/Cluster/Exchanges.antt =====
-- Messages of `Codec` on the connections of the cluster (src/network/cluster.cpp).
use el_cache.Common.{
  ℕ, ◌%◌, ◌≡◌, ◌<◌, refl, sym, ap, ◌∙◌, true, false, Option, none, some, List, [], ◌++◌, arith, ltb,
  length, take, drop, returned, length-append, take-append, drop-append, u32_mod, u64_mod,
}
use mathlib.Core.List.{append_assoc, append-nil}
use el_cache.Range.{Range}
use el_cache.Codec.Parsing.{ok}
use el_cache.Codec.Messages
use el_cache.Codec.Messages.{Message, Metadata, sent_optional, as_received, get_response}
use el_cache.Codec.{
  Header, header_size, encode_header, encode_payload, type_code, encode, parse_header, decode,
}
use el_cache.Codec.RoundTrip.{Fits}
use el_cache.Codec.Frame.{
  header_of, HeaderFits, length-encode_header, parse_header-encode_header, decode-encode,
  type_code-bound,
}
use el_cache.Cluster.Remote.{
  message, give_message, receive_behind, receive_body, receive, Network, Exchange, not_connected,
  response, call, exchange, connection_of, remote_get, answer_of, read_answer, read_of,
}

given : (m : Message) (rest : List ℕ) (h : Header) → give_message (ok (m, h)) rest ≡ message m rest
unfolding give_message
given m rest h = refl

behind :
    (hdr : Header) (header body : List ℕ)
    → receive_behind (ok (hdr, [])) header body ≡ receive_body hdr header body
unfolding receive_behind
behind hdr header body = refl

-- The body of a message that was encoded, behind its header.
receive_body-payload :
    (hdr : Header) (header payload rest : List ℕ) (m : Message) (h : Header)
    → hdr.payload_length ≡ length payload
    → decode (header ++ payload) ≡ ok (m, h)
    → receive_body hdr header (payload ++ rest) ≡ message m rest
unfolding receive_body
receive_body-payload hdr header payload rest m h e d =
    let whole : ltb (length (payload ++ rest)) (length payload) ≡ false =
      ground (arith, length-append payload rest) in
    rw (e, receive_body, whole, take-append payload rest, d, drop-append payload rest)
      (given m rest h)

-- A header of 24 bytes, and what follows it.
receive-header :
    (header body : List ℕ) (hdr : Header)
    → length header ≡ header_size
    → parse_header header ≡ ok (hdr, [])
    → receive (header ++ body) ≡ receive_body hdr header body
unfolding receive
receive-header header body hdr e p =
    let long : ltb (length (header ++ body)) header_size ≡ false =
      ground (arith, length-append header body, e) in
    let front : take header_size (header ++ body) ≡ header =
      ap (λ n. take n (header ++ body)) (sym e) ∙ take-append header body in
    let back : drop header_size (header ++ body) ≡ body =
      ap (λ n. drop n (header ++ body)) (sym e) ∙ drop-append header body in
    rw (long, front, p, back) (behind hdr header body)

-- A message of a type that `decode` knows, whose numbers, texts and lists fit their types and whose
-- payload is shorter than 2 ^ 32 bytes, is received as it was sent but without its times, and the bytes behind it are left for
-- the next message.
pub receive-encode :
    (m : Message) (request_id now : ℕ)
    → Fits m
    → length (encode_payload m) < u32_mod
    → request_id < u32_mod
    → now < u64_mod
    → (rest : List ℕ) → receive (encode m request_id now ++ rest) ≡ message (as_received m) rest
unfolding encode
receive-encode m request_id now h short hr hn rest =
    let payload = encode_payload m in
    let e : length payload % u32_mod ≡ length payload = omega arith in
    let header = encode_header (type_code m) (length payload % u32_mod) request_id now in
    let hdr = header_of (type_code m) (length payload % u32_mod) request_id now in
    let fits : HeaderFits (type_code m) (length payload % u32_mod) request_id now = record {
      message_type = type_code-bound m;
      payload_len = omega arith;
      request_id = hr;
      time = hn;
    } in
    let size : length header ≡ header_size =
      ap length (sym (append-nil header))
      ∙ length-encode_header (type_code m) (length payload % u32_mod) request_id now []
      ∙ omega arith in
    let parsed : parse_header header ≡ ok (hdr, []) =
      ap parse_header (sym (append-nil header)) ∙ parse_header-encode_header _ _ _ _ fits [] in
    let decoded =
      ap decode (sym (append-nil (header ++ payload)))
      ∙ decode-encode m request_id now h short hr hn [] in
    ap receive (append_assoc header payload rest)
    ∙ receive-header header (payload ++ rest) hdr size parsed
    ∙ receive_body-payload hdr header payload rest (as_received m) _ e decoded

read_answer-message :
    (input : List ℕ) (m : Message) (rest : List ℕ)
    → receive input ≡ message m rest
    → read_answer (some input) ≡ response m
unfolding read_answer answer_of
read_answer-message input m rest e = ap answer_of e

module _ (net : Network) where
  -- `exchange` behind the choice of the connection.
  abbrev exchange_over : net.State × Option ℕ → Option ℕ → Message → net.State × Option ℕ × Exchange
  exchange_over p known msg = elim p.1 [
    | none ↦ (p.0, known, not_connected)
    | some i ↦ let (s'', answer) = call net p.0 i msg in (s'', some i, answer)
  ]

  connection_of-connected :
      (s : net.State) (conn : ℕ) (address : List ℕ) (port : ℕ)
      → net.is_connected s conn ≡ true
      → connection_of net s (some conn) address port ≡ (s, some conn)
  unfolding connection_of
  connection_of-connected s conn address port e = rw (e, connection_of) refl

  exchange-connected :
      (s : net.State) (conn : ℕ) (address : List ℕ) (port : ℕ) (msg : Message)
      → net.is_connected s conn ≡ true
      → (exchange net s (some conn) address port msg).2
        ≡ read_answer (net.deliver s conn (encode msg 0 (net.now s))).1
  unfolding exchange call
  exchange-connected s conn address port msg e =
      ap (λ p. (exchange_over p (some conn) msg).2) (connection_of-connected s conn address port e)

  -- A read from a node with an open connection, which answers with an encoded `GetResponse` whose parts fit
  -- their types and whose payload is shorter than 2 ^ 32 bytes: the call returns the result that it sent,
  -- whatever bytes follow it, but that its metadata come without their times: the epoch, and no expiry.
  pub remote_get-encode :
      (s : net.State) (conn : ℕ) (address : List ℕ) (port : ℕ) (key : List ℕ) (range : Option Range)
      → (result : ℕ) (metadata : Option Metadata) (bytes : List ℕ) (actual : Range)
      → (request_id now : ℕ) (rest : List ℕ) → net.is_connected s conn ≡ true
      → (net.deliver s conn (encode (Messages.get key false range) 0 (net.now s))).1
        ≡ some (encode (get_response result metadata bytes actual) request_id now ++ rest)
      → Fits (get_response result metadata bytes actual)
      → length (encode_payload (get_response result metadata bytes actual)) < u32_mod
      → request_id < u32_mod
      → now < u64_mod
      → (remote_get net s (some conn) address port key range).2
        ≡ returned (some (result, sent_optional metadata, bytes, actual))
  unfolding remote_get read_of
  remote_get-encode s conn address port key range result metadata bytes actual request_id now rest
        up sent fits short hr hn =
      ap read_of (
        exchange-connected s conn address port (Messages.get key false range) up
        ∙ ap read_answer sent
        ∙ read_answer-message _ (get_response result (sent_optional metadata) bytes actual) rest (
            receive-encode (get_response result metadata bytes actual) request_id now fits short hr
              hn rest))
