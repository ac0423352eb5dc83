-- ===== src/Wire/Numbers.antt =====
-- Numbers come back as they were written, wherever they stand in a buffer.
use el_cache.Common.{
  ℕ, zero, suc, ◌+◌, ◌*◌, ◌/◌, ◌≡◌, ◌<◌, refl, sym, ap, subst, ◌∙◌, some, List, [], ◌++◌, arith,
  length, length-append, take-append, drop-append, leb, true,
}
use mathlib.Core.List.{append_assoc, append-nil}
use el_cache.Wire.{encode_le, decode_le, bytes_at, number_at}

pub length-encode_le : (n v : ℕ) → length (encode_le n v) ≡ n
unfolding encode_le
length-encode_le zero v = refl
length-encode_le (suc n) v = ap suc (length-encode_le n (v / 256))

-- 256 to the power of `n`.
abbrev pub bytes_mod : ℕ → ℕ
bytes_mod zero = 1
bytes_mod (suc n) = 256 * bytes_mod n

pub decode_le-encode_le : (n v : ℕ) → v < bytes_mod n → decode_le (encode_le n v) ≡ v
unfolding encode_le decode_le
decode_le-encode_le zero v h = omega arith
decode_le-encode_le (suc n) v h = omega (arith, decode_le-encode_le n (v / 256) (omega arith))

-- The bytes between two parts of a buffer.
pub bytes_at-append :
    (pre mid post : List ℕ) (pos n : ℕ)
    → pos ≡ length pre
    → n ≡ length mid
    → bytes_at (pre ++ (mid ++ post)) pos n ≡ some mid
unfolding bytes_at
bytes_at-append pre mid post pos n p q =
    let fits : leb (pos + n) (length (pre ++ (mid ++ post)))
        ≡ leb (length pre + length mid) (length pre + (length mid + length post)) =
      rw (p, q, length-append pre (mid ++ post), length-append mid post) refl in
    let yes_fits : leb (length pre + length mid) (length pre + (length mid + length post)) ≡ true =
      ground arith in
    rw (fits ∙ yes_fits) (rw (p, q, drop-append pre (mid ++ post), take-append mid post) refl)

pub number_at-append :
    (pre post : List ℕ) (pos n v : ℕ)
    → pos ≡ length pre
    → v < bytes_mod n
    → number_at (pre ++ (encode_le n v ++ post)) pos n ≡ some v
unfolding number_at
number_at-append pre post pos n v p h =
    rw
      (
        bytes_at-append pre (encode_le n v) post pos n p (sym (length-encode_le n v)),
        number_at,
        decode_le-encode_le n v h,
      )
      refl

-- The same behind two parts, and behind three.
pub number_at-append₂ :
    (pre mid post : List ℕ) (pos n v : ℕ)
    → pos ≡ length pre + length mid
    → v < bytes_mod n
    → number_at (pre ++ (mid ++ (encode_le n v ++ post))) pos n ≡ some v
number_at-append₂ pre mid post pos n v p h =
    rw (← append_assoc pre mid (encode_le n v ++ post))
      (number_at-append (pre ++ mid) post pos n v (p ∙ sym (length-append pre mid)) h)

pub bytes_at-append₂ :
    (pre mid part post : List ℕ) (pos n : ℕ)
    → pos ≡ length pre + length mid
    → n ≡ length part
    → bytes_at (pre ++ (mid ++ (part ++ post))) pos n ≡ some part
bytes_at-append₂ pre mid part post pos n p q =
    rw (← append_assoc pre mid (part ++ post))
      (bytes_at-append (pre ++ mid) part post pos n (p ∙ sym (length-append pre mid)) q)

-- The last part of a buffer.
pub bytes_at-last :
    (pre part : List ℕ) (pos n : ℕ)
    → pos ≡ length pre
    → n ≡ length part
    → bytes_at (pre ++ part) pos n ≡ some part
bytes_at-last pre part pos n p q =
    subst (λ l. bytes_at (pre ++ l) pos n ≡ some part) (append-nil part)
      (bytes_at-append pre part [] pos n p q)

pub bytes_at-last₂ :
    (pre mid part : List ℕ) (pos n : ℕ)
    → pos ≡ length pre + length mid
    → n ≡ length part
    → bytes_at (pre ++ (mid ++ part)) pos n ≡ some part
bytes_at-last₂ pre mid part pos n p q =
    rw (← append_assoc pre mid part)
      (bytes_at-last (pre ++ mid) part pos n (p ∙ sym (length-append pre mid)) q)

pub number_at-last₂ :
    (pre mid : List ℕ) (pos n v : ℕ)
    → pos ≡ length pre + length mid
    → v < bytes_mod n
    → number_at (pre ++ (mid ++ encode_le n v)) pos n ≡ some v
number_at-last₂ pre mid pos n v p h =
    subst (λ l. number_at (pre ++ (mid ++ l)) pos n ≡ some v) (append-nil (encode_le n v))
      (number_at-append₂ pre mid [] pos n v p h)
