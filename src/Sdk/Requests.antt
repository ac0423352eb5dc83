-- ===== src/Sdk/Requests.antt =====
-- The server reads the requests as the client writes them.
use el_cache.Common.{
  ℕ, ◌+◌, ◌%◌, ◌≡◌, ◌≤◌, ◌<◌, refl, sym, subst, ◌∙◌, true, false, some, List, [], ◌∷◌, ◌++◌, arith,
  length, length-append, leb, u32_mod, u64_mod,
}
use mathlib.Core.List.{append_assoc, append-nil}
use el_cache.Wire.{encode_le, encode_u32, encode_u64, bytes_at, number_at}
use el_cache.Wire.Numbers.{
  length-encode_le, number_at-append, number_at-append₂, bytes_at-append, bytes_at-append₂,
  bytes_at-last₂, number_at-last₂,
}
use el_cache.UnixServer.{parse_key, parse_get, parse_range, parse_put, parse_create, parse_write}
use el_cache.UnixServer.Reading.{got}
use el_cache.Sdk.{key_field, ttl_field, put_payload, create_payload, write_payload}

pub length-key_field : (key : List ℕ) → length (key_field key) ≡ 4 + length key
unfolding key_field
length-key_field key =
    length-append (encode_u32 (length key)) key ∙ omega (arith, length-encode_le 4 (length key))

module _ (key : List ℕ) where
  key_len_at :
      (rest : List ℕ)
      → length key < u32_mod
      → number_at (key_field key ++ rest) 0 4 ≡ some (length key)
  unfolding key_field
  key_len_at rest h =
      rw (append_assoc (encode_u32 (length key)) key rest)
        (number_at-append [] (key ++ rest) 0 4 (length key) refl (omega arith))

  key_at : (rest : List ℕ) → bytes_at (key_field key ++ rest) 4 (length key) ≡ some key
  unfolding key_field
  key_at rest = rw (append_assoc (encode_u32 (length key)) key rest) (
      bytes_at-append (encode_u32 (length key)) key rest 4 (length key)
        (sym (length-encode_le 4 (length key))) refl)

  parse_key-key_field :
      (first extra : ℕ) (rest : List ℕ)
      → 4 + length key + extra < u32_mod
      → first ≤ 4 + length key + length rest
      → extra ≤ length rest
      → parse_key first extra (key_field key ++ rest) ≡ got (key, 4 + length key)
  unfolding parse_key
  parse_key-key_field first extra rest fits enough room =
      let all : length (key_field key ++ rest) ≡ 4 + length key + length rest =
        omega (arith, length-append (key_field key) rest, length-key_field key) in
      let a : leb first (length (key_field key ++ rest)) ≡ true = rw all (ground arith) in
      let b : leb ((4 + length key + extra) % u32_mod) (length (key_field key ++ rest)) ≡ true =
        rw all (ground arith) in
      let e : (4 + length key) % u32_mod ≡ 4 + length key = omega arith in
      rw (a, parse_key, key_len_at rest (omega arith), b, key_at rest, e) refl

  pos_at : 4 + length key ≡ length (key_field key)
  pos_at = sym (length-key_field key)

  -- The position `n` bytes behind the key.
  behind :
      (n : ℕ) (mid : List ℕ)
      → length mid ≡ n
      → 4 + length key + n ≡ length (key_field key) + length mid
  behind n mid e = omega (arith, length-key_field key)

  pub parse_get_whole :
      4 + length key + 2 < u32_mod
      → parse_get (key_field key ++ (0 ∷ 0 ∷ [])) ≡ got (key, false, 0, 0)
  unfolding parse_get parse_range encode_le
  parse_get_whole fits =
      rw
        (
          parse_key-key_field 4 2 (0 ∷ 0 ∷ []) fits (omega arith) (omega arith),
          parse_get,
          number_at-append₂ (key_field key) (0 ∷ []) [] (4 + length key + 1) 1 0
              (behind 1 (0 ∷ []) refl) (omega arith),
          parse_range,
        )
        refl

  flag_at :
      (rest : List ℕ) → number_at (key_field key ++ (0 ∷ 1 ∷ rest)) (4 + length key + 1) 1 ≡ some 1
  unfolding encode_le
  flag_at rest =
      number_at-append₂ (key_field key) (0 ∷ []) rest (4 + length key + 1) 1 1
        (behind 1 (0 ∷ []) refl) (omega arith)

  pub parse_get_range :
      (offset size : ℕ)
      → 4 + length key + 2 < u32_mod
      → offset < u64_mod
      → size < u64_mod
      → parse_get (key_field key ++ (0 ∷ 1 ∷ (encode_u64 offset ++ encode_u64 size)))
        ≡ got (key, true, offset, size)
  unfolding parse_get parse_range
  parse_get_range offset size fits ho hs =
      let numbers : List ℕ = encode_u64 offset ++ encode_u64 size in
      let sixteen : length numbers ≡ 16 = omega (
        arith,
        length-append (encode_u64 offset) (encode_u64 size),
        length-encode_le 8 offset,
        length-encode_le 8 size,
      ) in
      let all : length (key_field key ++ (0 ∷ 1 ∷ numbers)) ≡ 4 + length key + 18 =
        omega
          (arith, length-append (key_field key) (0 ∷ 1 ∷ numbers), length-key_field key, sixteen) in
      let enough : leb (4 + length key + 2 + 16) (length (key_field key ++ (0 ∷ 1 ∷ numbers)))
          ≡ true =
        rw all (ground arith) in
      let at_offset =
        number_at-append₂ (key_field key) (0 ∷ 1 ∷ []) (encode_u64 size) (4 + length key + 2) 8
          offset (behind 2 (0 ∷ 1 ∷ []) refl) (omega arith) in
      let at_size =
        number_at-last₂ (key_field key) (0 ∷ 1 ∷ encode_u64 offset) (4 + length key + 2 + 8) 8 size
          (omega (arith, length-key_field key, length-encode_le 8 offset)) (omega arith) in
      rw
        (
          parse_key-key_field 4 2 (0 ∷ 1 ∷ numbers) fits (omega arith) (omega arith),
          parse_get,
          flag_at numbers,
          parse_range,
          enough,
          at_offset,
          at_size,
        )
        refl

  pub parse_put-put_payload :
      (value : List ℕ) (ttl_seconds flags : ℕ)
      → 4 + length key + 4 < u32_mod
      → length value < u32_mod
      → parse_put (put_payload key value ttl_seconds flags) ≡ got (key, value)
  unfolding parse_put put_payload
  parse_put-put_payload value ttl_seconds flags fits hv =
      let tail : List ℕ = ttl_field ttl_seconds ++ encode_u32 flags in
      let rest : List ℕ = encode_u32 (length value) ++ (value ++ tail) in
      let size : length rest ≡ 4 + length value + length tail = omega (
        arith,
        length-append (encode_u32 (length value)) (value ++ tail),
        length-append value tail,
        length-encode_le 4 (length value),
      ) in
      let all : length (key_field key ++ rest) ≡ 4 + length key + 4 + length value + length tail =
        omega (arith, length-append (key_field key) rest, length-key_field key, size) in
      let enough : leb (4 + length key + 4 + length value) (length (key_field key ++ rest)) ≡ true =
        rw all (ground arith) in
      rw
        (
          parse_key-key_field 8 4 rest fits (omega (arith, size)) (omega (arith, size)),
          parse_put,
          number_at-append (key_field key) (value ++ tail) (4 + length key) 4 (length value) pos_at
              (omega arith),
          enough,
          bytes_at-append₂ (key_field key) (encode_u32 (length value)) value tail
              (4 + length key + 4) (length value)
              (behind 4 (encode_u32 (length value)) (length-encode_le 4 (length value))) refl,
        )
        refl

  pub parse_create-create_payload :
      (total_size ttl_seconds flags : ℕ)
      → 4 + length key + 8 < u32_mod
      → total_size < u64_mod
      → parse_create (create_payload key total_size ttl_seconds flags) ≡ got (key, total_size)
  unfolding parse_create create_payload
  parse_create-create_payload total_size ttl_seconds flags fits ht =
      let tail : List ℕ = ttl_field ttl_seconds ++ encode_u32 flags in
      let rest : List ℕ = encode_u64 total_size ++ tail in
      let size : length rest ≡ 8 + length tail =
        omega (arith, length-append (encode_u64 total_size) tail, length-encode_le 8 total_size) in
      rw
        (
          parse_key-key_field 4 8 rest fits (omega (arith, size)) (omega (arith, size)),
          parse_create,
          number_at-append (key_field key) tail (4 + length key) 8 total_size pos_at (omega arith),
        )
        refl

  pub parse_write-write_payload :
      (offset : ℕ) (buf : List ℕ)
      → 4 + length key + 12 < u32_mod
      → offset < u64_mod
      → length buf < u32_mod
      → parse_write (write_payload key offset buf) ≡ got (key, offset, buf)
  unfolding parse_write write_payload
  parse_write-write_payload offset buf fits ho hb =
      let numbers : List ℕ = encode_u64 offset ++ encode_u32 (length buf) in
      let rest : List ℕ = encode_u64 offset ++ (encode_u32 (length buf) ++ buf) in
      let size : length rest ≡ 12 + length buf = omega (
        arith,
        length-append (encode_u64 offset) (encode_u32 (length buf) ++ buf),
        length-append (encode_u32 (length buf)) buf,
        length-encode_le 8 offset,
        length-encode_le 4 (length buf),
      ) in
      let all : length (key_field key ++ rest) ≡ 4 + length key + 12 + length buf =
        omega (arith, length-append (key_field key) rest, length-key_field key, size) in
      let enough : leb (4 + length key + 12 + length buf) (length (key_field key ++ rest)) ≡ true =
        rw all (ground arith) in
      let at_len =
        number_at-append₂ (key_field key) (encode_u64 offset) buf (4 + length key + 8) 4
          (length buf) (behind 8 (encode_u64 offset) (length-encode_le 8 offset)) (omega arith) in
      let twelve : length numbers ≡ 12 = omega (
        arith,
        length-append (encode_u64 offset) (encode_u32 (length buf)),
        length-encode_le 8 offset,
        length-encode_le 4 (length buf),
      ) in
      let at_buf : bytes_at (key_field key ++ rest) (4 + length key + 12) (length buf) ≡ some buf =
        rw (← append_assoc (encode_u64 offset) (encode_u32 (length buf)) buf) (
          bytes_at-last₂ (key_field key) numbers buf (4 + length key + 12) (length buf)
            (behind 12 numbers twelve) refl) in
      rw
        (
          parse_key-key_field 4 12 rest fits (omega (arith, size)) (omega (arith, size)),
          parse_write,
          number_at-append (key_field key) (encode_u32 (length buf) ++ buf) (4 + length key) 8
              offset pos_at (omega arith),
          at_len,
          enough,
          at_buf,
        )
        refl

  pub parse_key_alone :
      4 + length key < u32_mod → parse_key 4 0 (key_field key) ≡ got (key, 4 + length key)
  parse_key_alone fits =
      subst (λ l. parse_key 4 0 l ≡ got (key, 4 + length key)) (append-nil (key_field key))
        (parse_key-key_field 4 0 [] (omega arith) (omega arith) (omega arith))
