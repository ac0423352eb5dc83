-- ===== src/Codec/Tests.antt =====
-- Examples for `Codec`.
use el_cache.Common.{ℕ, ◌≡◌, refl, List, [], ◌∷◌, ◌++◌, Option, none, some, arith, false}
use el_cache.Codec.Parsing.{ok}
use el_cache.Codec.Fields.{encode_u32, encode_u64, encode_bytes_from, encode_string, flag}
use el_cache.Codec.Messages.{Message, Metadata, get, get_response}
use el_cache.Codec.Frame.{decode-encode, header_of}
use el_cache.Codec.{
  encode_option, encode_range, encode_metadata, type_code, encode_payload, encode, decode,
}

abbrev key_ab : List ℕ
key_ab = 97 ∷ 98 ∷ []

abbrev get_ab : Message
get_ab = get key_ab false (some (record { offset = 4; length = 300 }))

get_ab-bytes :
    encode_payload get_ab
    ≡ 2 ∷ 0 ∷ 0 ∷ 0 ∷ 97 ∷ 98 ∷ 0 ∷ 1 ∷ 4 ∷ 0 ∷ 0 ∷ 0 ∷ 0 ∷ 0 ∷ 0 ∷ 0 ∷ 44 ∷ 1 ∷ 0 ∷ 0 ∷ 0 ∷ 0 ∷ 0
      ∷ 0 ∷ []
unfolding encode_payload encode_string encode_u32 encode_u64 encode_bytes_from encode_option
    encode_range flag type_code
get_ab-bytes = refl

-- A response whose metadata have times; they are received without them.
abbrev described : Option ℕ → ℕ → Metadata
described expires_at time = record {
  total_size = 2;
  chunk_count = 1;
  created_at = time;
  last_accessed = time;
  expires_at = expires_at;
  flags = 3;
}

abbrev answer_with : Metadata → Message
answer_with m = get_response 0 (some m) key_ab (record { offset = 0; length = 2 })

decode-encode_example :
    decode
      (encode (answer_with (described (some 9000000000) 8000000000)) 7 1700000000000 ++ 255 ∷ [])
    ≡ ok (answer_with (described none 0), header_of 0x0101 47 7 1700000000000)
unfolding encode_payload encode_string encode_u32 encode_u64 encode_bytes_from encode_option
    encode_range encode_metadata flag type_code
decode-encode_example =
    decode-encode (answer_with (described (some 9000000000) 8000000000)) 7 1700000000000
      (
        omega arith,
        omega arith,
        (omega arith, omega arith),
        (omega arith, omega arith, omega arith),
      )
      (omega arith) (omega arith) (omega arith) (255 ∷ [])
