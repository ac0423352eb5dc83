-- ===== src/Wire.antt =====
-- The bytes between a client and the Unix socket server (include/elcache/unix_server.hpp,
-- src/network/unix_server.cpp; src/sdk/elcache_client.c has the same code): numbers, least significant byte
-- first, and the header of a message. A byte is a number; the time in the header is an argument.
use el_cache.Common.{
  ℕ, zero, suc, ◌+◌, ◌*◌, ◌/◌, ◌%◌, ◌^◌, Bool, true, false, Option, none, some, List, [], ◌∷◌, ◌++◌,
  leb, ltb, ◌==◌, if◌then◌else◌, length, take, drop, u32_mod,
}
pub mod Code
pub mod Numbers
pub mod Headers

-- The lowest `n` bytes of a number.
unfoldable pub encode_le : ℕ → ℕ → List ℕ
encode_le zero v = []
encode_le (suc n) v = (v % 256) ∷ encode_le n (v / 256)

unfoldable pub decode_le : List ℕ → ℕ
decode_le [] = 0
decode_le (b ∷ bytes) = b + 256 * decode_le bytes

abbrev pub encode_u16 : ℕ → List ℕ
encode_u16 v = encode_le 2 v

abbrev pub encode_u32 : ℕ → List ℕ
encode_u32 v = encode_le 4 v

abbrev pub encode_u64 : ℕ → List ℕ
encode_u64 v = encode_le 8 v

abbrev pub proto_magic : ℕ
proto_magic = 0x454C4341

abbrev pub header_size : ℕ
header_size = 24

-- `encode_header`, with the time in milliseconds.
unfoldable pub encode_header : ℕ → ℕ → ℕ → ℕ → List ℕ
encode_header message_type payload_len request_id now =
    encode_u32 proto_magic
    ++ (encode_u16 1
        ++ (encode_u16 message_type
            ++ (encode_u32 payload_len ++ (encode_u32 request_id ++ encode_u64 now))))

-- `n` bytes of a buffer from `pos`; `none` is a read past its end, which the source leaves undefined.
unfoldable pub bytes_at : List ℕ → ℕ → ℕ → Option (List ℕ)
bytes_at buf pos n = if leb (pos + n) (length buf) then some (take n (drop pos buf)) else none

unfoldable pub number_at : List ℕ → ℕ → ℕ → Option ℕ
number_at buf pos n = elim (bytes_at buf pos n) [
  | none ↦ none
  | some bytes ↦ some (decode_le bytes)
]

-- A number of a header.
abbrev pub field : List ℕ → ℕ → ℕ → ℕ
field header pos n = decode_le (take n (drop pos header))
