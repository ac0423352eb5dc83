-- ===== src/Sdk/Exchange.antt =====
-- The two ends of an exchange: the responses of the server, as the client takes them apart.
use el_cache.Common.{
  ℕ, ◌+◌, ◌-◌, ◌%◌, ◌≡◌, ◌≤◌, ◌<◌, refl, sym, ap, ◌∙◌, true, false, ◌&&◌, some, List, [], ◌∷◌, ◌++◌,
  arith, length, take, drop, ltb, ◌==◌, if◌then◌else◌, u32_mod, u64_mod, sub64_exact, Bool-cases,
  inl, inr, take_all, drop_all, length-drop,
}
use el_cache.Wire.{encode_le, encode_u32, header_size, number_at, bytes_at}
use el_cache.Wire.Code
use el_cache.Wire.Numbers.{number_at-append, number_at-append₂, bytes_at-last₂, length-encode_le}
use el_cache.Wire.Headers.{IsHeader}
use el_cache.UnixServer
use el_cache.UnixServer.{
  Server, Handled, reply, sent, closed, next, crashed, process_request, slice, put_value, value_of,
  do_get, do_put,
}
use el_cache.Sdk.{Client, has_range, Ended, get_response, get_fields, get_result, any_response}

pub get_response-IsHeader :
    (c : Client) (buffer_size latency : ℕ) (input : List ℕ) (len request_id : ℕ) (rest : List ℕ)
    → IsHeader input Code.get_response len request_id rest
    → len ≤ length rest
    → header_size + len ≤ c.recv_buffer_size
    → c.recv_buffer_size < u64_mod
    → get_response c buffer_size latency input
      ≡ get_fields c buffer_size latency (take len rest) (drop len rest)
unfolding get_response
get_response-IsHeader c buffer_size latency input len request_id rest h enough room word =
    let all : ltb (length rest) len ≡ false = ground arith in
    let e = sub64_exact c.recv_buffer_size header_size word (omega arith) in
    let fits : ltb (c.recv_buffer_size - header_size) len ≡ false = ground arith in
    rw (h.long_enough, get_response, h.magic, h.behind, h.length_field, h.type_field, e, fits, all)
      refl

zero_at : (n : ℕ) (post : List ℕ) → number_at (encode_u32 n ++ (0 ∷ post)) 4 1 ≡ some 0
unfolding encode_le
zero_at n post = number_at-append (encode_u32 n) post 4 1 0 refl (omega arith)

-- The server's response to a `Get`, as the client takes it apart.
pub get_fields-get_response :
    (c : Client) (buffer_size latency code : ℕ) (bytes rest : List ℕ)
    → code < u32_mod
    → length bytes < u32_mod
    → get_fields c buffer_size latency (UnixServer.get_response code bytes) rest
      ≡ get_result c buffer_size latency code (length bytes) (some bytes) rest
unfolding get_fields UnixServer.get_response
get_fields-get_response c buffer_size latency code bytes rest hc hb =
    let e : length bytes % u32_mod ≡ length bytes = omega arith in
    let size : List ℕ = encode_u32 (length bytes) in
    let a = number_at-append [] (0 ∷ (size ++ bytes)) 0 4 code refl (omega arith) in
    let l =
      number_at-append₂ (encode_u32 code) (0 ∷ []) bytes 5 4 (length bytes)
        (omega (arith, length-encode_le 4 code)) (omega arith) in
    let d : bytes_at (encode_u32 code ++ (0 ∷ (size ++ bytes))) 9 (length bytes) ≡ some bytes =
      bytes_at-last₂ (encode_u32 code) (0 ∷ size) bytes 9 (length bytes)
        (omega (arith, length-encode_le 4 code, length-encode_le 4 (length bytes))) refl in
    rw (e, get_fields, a, zero_at code (size ++ bytes), l)
      (ap (λ o. get_result c buffer_size latency code (length bytes) o rest) d)

pub any_response-IsHeader :
    (c : Client) (use_body : List ℕ → List ℕ → Ended) (input : List ℕ)
    (message_type len request_id : ℕ) (rest : List ℕ)
    → IsHeader input message_type len request_id rest
    → len ≤ length rest
    → header_size + len ≤ c.recv_buffer_size
    → any_response c use_body input ≡ use_body (take len rest) (drop len rest)
unfolding any_response
any_response-IsHeader c use_body input message_type len request_id rest h enough room =
    let all : ltb (length rest) len ≡ false = ground arith in
    let fits : ltb c.recv_buffer_size (header_size + len) ≡ false = ground arith in
    rw (h.long_enough, any_response, h.behind, h.length_field, fits, all) refl

-- The bytes of a value from `offset` on, at most `size` of them where that is not 0.
unfoldable pub part_of : ℕ → ℕ → List ℕ → List ℕ
part_of offset size value = take (if size == 0 then length value else size) (drop offset value)

slice_whole : (value : List ℕ) → slice false 0 0 value ≡ part_of 0 0 value
unfolding slice part_of
slice_whole value = sym (take_all (length value) value (omega arith))

-- What is left behind an offset, with any bound that reaches its end.
take_behind :
    (n m offset : ℕ) (value : List ℕ)
    → length value - offset ≤ n
    → length value - offset ≤ m
    → take n (drop offset value) ≡ take m (drop offset value)
take_behind n m offset value h k =
    take_all n (drop offset value) (omega (arith, length-drop offset value))
    ∙ sym (take_all m (drop offset value) (omega (arith, length-drop offset value)))

slice_ranged :
    (offset size : ℕ) (value : List ℕ) → slice true offset size value ≡ part_of offset size value
unfolding slice part_of
slice_ranged offset size value =
    let available : ℕ = length value - offset in
    let all : ℕ = if size == 0 then length value else size in
    elim (Bool-cases (ltb offset (length value))) [
      | inr past ↦
          rw (past, drop_all offset value (ground arith)) (sym (take_all all [] (omega arith)))
      | inl inside ↦ elim (Bool-cases (ltb 0 size && ltb size available)) [
        | inl shorter ↦ let e : (size == 0) ≡ false = ground arith in rw (inside, shorter, e) refl
        | inr whole ↦
            let enough : available ≤ all = ground arith in
            rw (inside, whole) (take_behind available all offset value (omega arith) enough)
      ]
    ]

pub slice-part_of :
    (offset size : ℕ) (value : List ℕ)
    → slice (has_range offset size) offset size value ≡ part_of offset size value
slice-part_of offset size value = elim (Bool-cases (has_range offset size)) [
  | inl ranged ↦ rw ranged (slice_ranged offset size value)
  | inr whole ↦
      let a : offset ≡ 0 = ground arith in
      let b : size ≡ 0 = ground arith in rw (whole, a, b) (slice_whole value)
]
