-- ===== src/Cluster/Remote/Tests.antt =====
-- Examples for the remote operations: a node that answers each message with the same bytes.
use el_cache.Common.{ℕ, ◌≡◌, refl, true, none, some, returned, List, [], ◌∷◌, ◌++◌, arith}
use el_cache.Range.{Range}
use el_cache.Text.{codes}
use el_cache.Codec.Messages
use el_cache.Codec.Messages.{get_response}
use el_cache.Codec.{encode, encode_payload, encode_option, encode_range}
use el_cache.Codec.Fields.{encode_u32, encode_u64, encode_string, encode_bytes_from, flag}
use el_cache.Cluster.Remote.{Network, remote_get, seed_port}
use el_cache.Codec.RoundTrip.{RangeFits}
use el_cache.Cluster.Exchanges.{remote_get-encode}

abbrev first_two : Range
first_two = record { offset = 0; length = 2 }

abbrev answer_bytes : List ℕ
answer_bytes = encode (get_response 0 none (8 ∷ 15 ∷ []) first_two) 3 1700000000 ++ []

abbrev one_answer : Network
one_answer = record {
  State = ℕ;
  connect = λ s address port. (s, none);
  is_connected = λ s conn. true;
  deliver = λ s conn bytes. (s, some answer_bytes);
  close = λ s conn. s;
  now = λ s. s;
}

port_wraps : seed_port (codes "65537") ≡ some 1
unfolding seed_port
port_wraps = refl

first_two-RangeFits : RangeFits first_two
first_two-RangeFits = (omega arith, omega arith)

remote_get-encode_example :
    (remote_get one_answer 5 (some 1) [] 9000 (codes "a") none).2
    ≡ returned (some (0, none, 8 ∷ 15 ∷ [], first_two))
unfolding encode_payload encode_u32 encode_option encode_string encode_range encode_u64
    encode_bytes_from flag
remote_get-encode_example =
    remote_get-encode one_answer 5 1 [] 9000 (codes "a") none 0 none (8 ∷ 15 ∷ []) first_two 3
      1700000000 [] refl refl (omega arith, omega arith, first_two-RangeFits) (omega arith)
      (omega arith) (omega arith)
