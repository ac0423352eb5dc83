-- ===== src/Wire/Headers.antt =====
-- The fields of a header are read as they were written.
use el_cache.Common.{ℕ, ◌^◌, ◌≡◌, ◌<◌, refl, false, List, ◌++◌, arith, length, drop, ltb, u32_mod}
use el_cache.Wire.{encode_le, decode_le, encode_header, field, header_size, proto_magic}

-- What a reader finds in the header of a message.
pub record IsHeader (input : List ℕ) (message_type len request_id : ℕ) (rest : List ℕ)
    : Type 0 where
  pub long_enough : ltb (length input) header_size ≡ false
  pub magic : field input 0 4 ≡ proto_magic
  pub type_field : field input 6 2 ≡ message_type
  pub length_field : field input 8 4 ≡ len
  pub id_field : field input 12 4 ≡ request_id
  pub behind : drop header_size input ≡ rest

pub encode_header-IsHeader :
    (message_type len request_id now : ℕ) (rest : List ℕ)
    → message_type < 2 ^ 16
    → len < u32_mod
    → request_id < u32_mod
    → IsHeader
        (encode_header message_type len request_id now ++ rest)
        message_type
        len
        request_id
        rest
unfolding encode_header encode_le decode_le
encode_header-IsHeader message_type len request_id now rest ht hl hi = record {
  long_enough = ground arith;
  magic = refl;
  type_field = omega arith;
  length_field = omega arith;
  id_field = omega arith;
  behind = refl;
}
