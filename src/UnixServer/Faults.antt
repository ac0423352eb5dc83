-- ===== src/UnixServer/Faults.antt =====
-- The length tests of the handlers, whose sums are of 32 bits.
use el_cache.Common.{
  ℕ, ◌+◌, ◌-◌, ◌%◌, ◌≡◌, ◌≤◌, ◌<◌, refl, Bool, true, false, some, List, arith, length, take, drop,
  leb, ◌==◌, u32_mod, Bool-cases, Option-cases, inl, inr,
}
use el_cache.Wire.{number_at, bytes_at, decode_le}
use el_cache.UnixServer.{
  Server, Handled, silent, reply, parse_key, parse_get, parse_range, handle_get, do_get, answer,
  value_of,
}
use el_cache.UnixServer.Reading.{got, ◌>>=◌}

bytes_within :
    (buf : List ℕ) (pos n : ℕ)
    → pos + n ≤ length buf
    → bytes_at buf pos n ≡ some (take n (drop pos buf))
unfolding bytes_at
bytes_within buf pos n h =
    let inside : leb (pos + n) (length buf) ≡ true = ground arith in rw inside refl

number_within :
    (buf : List ℕ) (pos n : ℕ)
    → pos + n ≤ length buf
    → number_at buf pos n ≡ some (decode_le (take n (drop pos buf)))
unfolding number_at
number_within buf pos n h = rw (bytes_within buf pos n h, number_at) refl

abbrev pub faults : Handled → Bool
faults (reply s code response) = false
faults silent = false
faults Handled.fault = true

module _ (dec : Discrete (List ℕ)) where
  do_get_answers :
      (s : Server) (key : List ℕ) (has_range : Bool) (offset size : ℕ)
      → faults (do_get dec s key has_range offset size) ≡ false
  unfolding do_get
  do_get_answers s key has_range offset size = elim (Option-cases (value_of dec key s.values)) [
    | inl missing ↦ rw (missing, do_get) refl
    | inr (value, found) ↦ rw (found, do_get) refl
  ]

  -- What `handle_get` does with the range that it has read.
  answer-parse_range :
      (s : Server) (payload key : List ℕ) (flag pos : ℕ)
      → faults (
          answer {A = List ℕ × Bool × ℕ × ℕ}
            (parse_range payload flag pos >>= λ range. got (key, range.0, range.1, range.2))
            (λ r. do_get dec s r.0 r.1 r.2 r.3))
        ≡ false
  unfolding parse_range
  answer-parse_range s payload key flag pos = elim (Bool-cases (flag == 0)) [
    | inl whole ↦ rw whole (do_get_answers s key false 0 0)
    | inr ranged ↦ elim (Bool-cases (leb (pos + 16) (length payload))) [
      | inr past ↦ rw (ranged, past) (do_get_answers s key true 0 0)
      | inl inside ↦
          let a = number_within payload pos 8 (ground arith) in
          let b = number_within payload (pos + 8) 8 (ground arith) in
          rw (ranged, inside, a, b) (do_get_answers s key true _ _)
    ]
  ]

  -- A key length that `handle_get` refuses, or that the payload holds.
  handle_get_exact :
      (s : Server) (payload : List ℕ) (key_len : ℕ)
      → number_at payload 0 4 ≡ some key_len
      → 6 ≤ length payload
      → key_len + 6 < u32_mod
      → faults (handle_get dec s payload) ≡ false
  unfolding handle_get parse_get parse_key
  handle_get_exact s payload key_len e long small =
      let first : leb 4 (length payload) ≡ true = ground arith in
      let exact : (4 + key_len + 2) % u32_mod ≡ 4 + key_len + 2 = omega arith in
      let place : (4 + key_len) % u32_mod ≡ 4 + key_len = omega arith in
      elim (Bool-cases (leb (4 + key_len + 2) (length payload))) [
        | inr past ↦ rw (first, e) (rw (exact) (rw past refl))
        | inl inside ↦
            let k = bytes_within payload 4 key_len (ground arith) in
            let f = number_within payload (4 + key_len + 1) 1 (ground arith) in
            rw (first, e)
              (rw exact (rw inside (rw k (rw place (rw f (answer-parse_range s payload _ _ _))))))
      ]

  -- A payload of at least six bytes, whose key length is `key_len`: `handle_get` reads past its end exactly
  -- for the six lengths with which its sum of 32 bits wraps.
  pub handle_get-number_at :
      (s : Server) (payload : List ℕ) (key_len : ℕ)
      → number_at payload 0 4 ≡ some key_len
      → 6 ≤ length payload
      → length payload < u32_mod - 6
      → key_len < u32_mod
      → faults (handle_get dec s payload) ≡ leb u32_mod (key_len + 6)
  unfolding handle_get parse_get parse_key bytes_at
  handle_get-number_at s payload key_len e long bound word =
      elim (Bool-cases (leb u32_mod (key_len + 6))) [
        | inr small ↦ rw small (handle_get_exact s payload key_len e long (ground arith))
        | inl wraps ↦
            let first : leb 4 (length payload) ≡ true = ground arith in
            let passes : leb ((4 + key_len + 2) % u32_mod) (length payload) ≡ true = ground arith in
            let past : leb (4 + key_len) (length payload) ≡ false = ground arith in
            rw (first, e) (rw (passes, past, wraps) refl)
      ]
