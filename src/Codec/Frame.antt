-- ===== src/Codec/Frame.antt =====
-- A whole message on the wire: the header, then the payload (`Codec::encode` and `Codec::decode`).
use el_cache.Common.{
  ℕ, ◌+◌, ◌%◌, ◌^◌, ◌≡◌, ◌<◌, refl, List, [], ◌++◌, false, arith, ltb, length, u32_mod, u64_mod,
}
use mathlib.Core.List.{append_assoc, append-nil}
use el_cache.Codec.Parsing.{ok, fail, unknown_type, read_past_end, ◌>>=◌}
use el_cache.Codec.Fields.{encode_u16, encode_u32, encode_u64, encode_bytes_from, decode_flag}
use el_cache.Codec.Messages.{
  Message, as_received, check, check_response, get_chunk, get_chunk_response,
}
use el_cache.Codec.Reads.{Reads, Reads-bind, Reads-last}
use el_cache.Codec.FieldReads.{Reads-u16, Reads-u32, Reads-u64}
use el_cache.Codec.RoundTrip.{Fits, Reads-payload}
use el_cache.Codec.{
  Header, magic_number, header_size, encode_header, header_fields, check_magic, parse_header,
  type_code, encode_payload, encode, decode_payload, decode, decode_delete_response,
}

-- The header that `encode` writes.
abbrev pub header_of : ℕ → ℕ → ℕ → ℕ → Header
header_of message_type payload_len request_id now = record {
  magic = magic_number;
  version = 1;
  message_type = message_type;
  payload_length = payload_len;
  request_id = request_id;
  timestamp = now;
}

pub record HeaderFits (t n r now : ℕ) : Type 0 where
  pub message_type : t < 2 ^ 16
  pub payload_len : n < u32_mod
  pub request_id : r < u32_mod
  pub time : now < u64_mod

Reads-header :
    (t n r now : ℕ)
    → HeaderFits t n r now
    → Reads header_fields (encode_header t n r now) (header_of t n r now)
unfolding header_fields encode_header
Reads-header t n r now h = Reads-bind _ (Reads-u32 magic_number (omega arith)) (
    Reads-bind _ (Reads-u16 1 (omega arith)) (
      Reads-bind _ (Reads-u16 t h.message_type) (
        Reads-bind _ (Reads-u32 n h.payload_len)
          (Reads-bind _ (Reads-u32 r h.request_id) (Reads-last _ (Reads-u64 now h.time))))))

pub length-encode_header :
    (t n r now : ℕ) (rest : List ℕ)
    → length (encode_header t n r now ++ rest) ≡ header_size + length rest
unfolding encode_header encode_u16 encode_u32 encode_u64 encode_bytes_from
length-encode_header t n r now rest = omega arith

pub parse_header-encode_header :
    (t n r now : ℕ)
    → HeaderFits t n r now
    → (rest : List ℕ)
    → parse_header (encode_header t n r now ++ rest) ≡ ok (header_of t n r now, rest)
unfolding parse_header check_magic
parse_header-encode_header t n r now h rest =
    let long : ltb (length (encode_header t n r now ++ rest)) header_size ≡ false =
      ground (arith, length-encode_header t n r now rest) in
    rw (parse_header, long, (Reads-header t n r now h).reads rest) refl

pub type_code-bound : (m : Message) → type_code m < 2 ^ 16
unfolding type_code
type_code-bound m = ground arith

encode-header :
    (m : Message) (request_id now : ℕ)
    → length (encode_payload m) < u32_mod
    → request_id < u32_mod
    → now < u64_mod
    → (rest : List ℕ)
    → parse_header (encode m request_id now ++ rest)
      ≡ ok (
        header_of (type_code m) (length (encode_payload m)) request_id now,
        encode_payload m ++ rest,
      )
unfolding encode
encode-header m request_id now short hr hn rest =
    let e : length (encode_payload m) % u32_mod ≡ length (encode_payload m) = omega arith in
    rw
      (
        e,
        append_assoc (encode_header (type_code m) (length (encode_payload m)) request_id now)
            (encode_payload m) rest,
      )
      (parse_header-encode_header _ _ _ _
        (record {
          message_type = type_code-bound m;
          payload_len = short;
          request_id = hr;
          time = hn;
        })
        _)

-- A message of a type that `decode` knows, whose numbers, texts and lists fit their types and whose
-- payload is shorter than 2 ^ 32 bytes, comes back with the header of its type, whatever bytes follow
-- it. It is the message that was sent, but that the times in it are lost: a node was last seen at the
-- epoch, and metadata have the epoch as their times and no expiry.
pub decode-encode :
    (m : Message) (request_id now : ℕ)
    → Fits m
    → length (encode_payload m) < u32_mod
    → request_id < u32_mod
    → now < u64_mod
    → (rest : List ℕ)
    → decode (encode m request_id now ++ rest)
      ≡ ok (as_received m, header_of (type_code m) (length (encode_payload m)) request_id now)
unfolding decode
decode-encode m request_id now h short hr hn rest =
    rw (decode, encode-header m request_id now short hr hn rest, (Reads-payload m h).reads rest)
      refl

-- The types that `encode` knows and `decode` does not.
abbrev pub IsOneWay : Message → Type 0
IsOneWay (check key range) = Unit {0}
IsOneWay (check_response exists metadata ranges) = Unit {0}
IsOneWay (get_chunk low high offset len) = Unit {0}
IsOneWay (get_chunk_response found bytes) = Unit {0}
IsOneWay _ = ⊥

payload_unknown :
    (m : Message)
    → IsOneWay m
    → (bytes : List ℕ) → decode_payload (type_code m) bytes ≡ fail unknown_type
unfolding decode_payload type_code
payload_unknown (check key range) h bytes = refl
payload_unknown (check_response exists metadata ranges) h bytes = refl
payload_unknown (get_chunk low high offset len) h bytes = refl
payload_unknown (get_chunk_response found bs) h bytes = refl
payload_unknown _ h bytes = absurd h

-- `decode` refuses every encoded message of the four types `Check`, `CheckResponse`, `GetChunk` and
-- `GetChunkResponse`, whose payload is shorter than 2 ^ 32 bytes, as of an unknown type.
pub decode-encode-IsOneWay :
    (m : Message) (request_id now : ℕ)
    → IsOneWay m
    → length (encode_payload m) < u32_mod
    → request_id < u32_mod
    → now < u64_mod
    → (rest : List ℕ) → decode (encode m request_id now ++ rest) ≡ fail unknown_type
unfolding decode
decode-encode-IsOneWay m request_id now h short hr hn rest =
    rw
      (
        decode,
        encode-header m request_id now short hr hn rest,
        payload_unknown m h (encode_payload m ++ rest),
      )
      refl

cut_payload :
    (code : ℕ)
    → code < u32_mod
    → decode_delete_response (encode_u32 code ++ []) ≡ fail read_past_end
unfolding decode_delete_response ◌>>=◌
cut_payload code h =
    rw (decode_delete_response, ◌>>=◌, (Reads-u32 code h).reads []) (unfold decode_flag in refl)

-- A `DeleteResponse` that arrives without its last byte makes `decode` read a byte past the end.
pub decode-encode_header-cut :
    (code request_id now : ℕ)
    → code < u32_mod
    → request_id < u32_mod
    → now < u64_mod
    → decode (encode_header 0x0105 5 request_id now ++ encode_u32 code) ≡ fail read_past_end
unfolding decode decode_payload
decode-encode_header-cut code request_id now h hr hn =
    let head =
      parse_header-encode_header 0x0105 5 request_id now
        (record {
          message_type = omega arith;
          payload_len = omega arith;
          request_id = hr;
          time = hn;
        })
        (encode_u32 code) in
    let tail : decode_delete_response (encode_u32 code) ≡ fail read_past_end =
      rw (← append-nil (encode_u32 code)) (cut_payload code h) in
    rw (decode, head, tail) refl
