-- ===== src/Http/Ranges.antt =====
-- The range specifications of RFC 9110 (14.1.2) against `HttpRequest::parse_range_header`
-- (src/http/http_api.cpp).
use el_cache.Common.{
  ℕ, suc, ◌+◌, ◌-◌, ◌≡◌, ◌≤◌, ◌<◌, refl, ap, ◌∙◌, true, false, some, List, [], ◌∷◌, ◌++◌, arith,
  ltb, ◌==◌, if◌then◌else◌, length, drop, length-append, take-append, add64, sub64, add64_exact,
  sub64_exact, u64_mod,
}
use el_cache.Range.{Range}
use el_cache.Text.{codes, decimal, stoull, find_char, minus}
use el_cache.Text.Numbers.{decimal-Digits, length-decimal, stoull-decimal, find_char-Digits}
use el_cache.Http.{
  HttpRequest, header, range_start, range_end, parse_range_value, parse_range_text,
  parse_range_header, between,
}

-- "a-b", "a-" and "-n".
pub data RangeSpec : Type 0 where
  from_to : ℕ → ℕ → RangeSpec
  from : ℕ → RangeSpec
  suffix : ℕ → RangeSpec

unfoldable pub spec_value : RangeSpec → List ℕ
spec_value (from_to a b) = decimal a ++ minus ∷ decimal b
spec_value (from a) = decimal a ++ minus ∷ []
spec_value (suffix n) = minus ∷ decimal n

unfoldable pub spec_text : RangeSpec → List ℕ
unfolding spec_value
spec_text spec = codes "bytes=" ++ spec_value spec

-- The bytes that a specification asks for, of a value of `total` bytes.
unfoldable pub meaning : RangeSpec → ℕ → Range
meaning (from_to a b) total = record { offset = a; length = suc b - a }
meaning (from a) total = record { offset = a; length = total - a }
meaning (suffix n) total = record { offset = total - n; length = n }

-- It asks for bytes, and for bytes of the value only.
abbrev pub Satisfiable : RangeSpec → ℕ → Type 0
Satisfiable (from_to a b) total = (a ≤ b) × (b < total)
Satisfiable (from a) total = a < total
Satisfiable (suffix n) total = (0 < n) × (n ≤ total)

drop_behind : (s r : List ℕ) (c : ℕ) → drop (suc (length s)) (s ++ c ∷ r) ≡ r
drop_behind [] r c = refl
drop_behind (x ∷ s) r c = drop_behind s r c

range_start-append :
    (s r : List ℕ) → 0 < length s → range_start (s ++ minus ∷ r) (length s) ≡ stoull s
unfolding range_start
range_start-append s r h =
    let some_digit : ltb 0 (length s) ≡ true = ground arith in
    rw (some_digit, take-append s (minus ∷ r)) refl

range_end-append :
    (s r : List ℕ) (total : ℕ)
    → 0 < length r
    → range_end (s ++ minus ∷ r) (length s) total ≡ stoull r
unfolding range_end
range_end-append s r total h =
    let more : ltb (length s) (length (s ++ minus ∷ r) - 1) ≡ true =
      ground (arith, length-append s (minus ∷ r)) in
    rw (more, drop_behind s r minus) refl

range_end-append_nil :
    (s : List ℕ) (total : ℕ) → range_end (s ++ minus ∷ []) (length s) total ≡ some (sub64 total 1)
unfolding range_end
range_end-append_nil s total =
    let last : ltb (length s) (length (s ++ minus ∷ []) - 1) ≡ false =
      ground (arith, length-append s (minus ∷ [])) in
    rw last refl

between_exact :
    (a b : ℕ) → a ≤ b → suc b < u64_mod → between a b ≡ record { offset = a; length = suc b - a }
between_exact a b h k =
    let e : add64 (sub64 b a) 1 ≡ suc b - a =
      ap (λ x. add64 x 1) (sub64_exact b a (omega arith) h)
      ∙ add64_exact (b - a) 1 (omega arith)
      ∙ omega arith in
    rw e refl

parse_parts :
    (v : List ℕ) (dash start stop total : ℕ)
    → find_char minus v ≡ some dash
    → range_start v dash ≡ some start
    → range_end v dash total ≡ some stop
    → parse_range_value v total
      ≡ some (if dash == 0 then between (sub64 total stop) (sub64 total 1) else between start stop)
unfolding parse_range_value
parse_parts v dash start stop total e e' e'' = ground (arith, e, e', e'')

parse-from_to :
    (a b total : ℕ)
    → a ≤ b
    → suc b < u64_mod
    → parse_range_value (spec_value (from_to a b)) total
      ≡ some (record { offset = a; length = suc b - a })
unfolding spec_value
parse-from_to a b total h k =
    let some_digit : (length (decimal a) == 0) ≡ false = ground (arith, length-decimal a) in
    parse_parts (decimal a ++ minus ∷ decimal b) (length (decimal a)) a b total
      (find_char-Digits (decimal a) (decimal b) (decimal-Digits a))
      (range_start-append (decimal a) (decimal b) (length-decimal a)
        ∙ stoull-decimal a (omega arith))
      (range_end-append (decimal a) (decimal b) total (length-decimal b)
        ∙ stoull-decimal b (omega arith))
    ∙ rw some_digit (ap some (between_exact a b h k))

parse-from :
    (a total : ℕ)
    → a < total
    → total < u64_mod
    → parse_range_value (spec_value (from a)) total
      ≡ some (record { offset = a; length = total - a })
unfolding spec_value
parse-from a total h k =
    let some_digit : (length (decimal a) == 0) ≡ false = ground (arith, length-decimal a) in
    let last : sub64 total 1 ≡ total - 1 = sub64_exact total 1 k (omega arith) in
    let size : suc (total - 1) - a ≡ total - a = omega arith in
    parse_parts (decimal a ++ minus ∷ []) (length (decimal a)) a (sub64 total 1) total
      (find_char-Digits (decimal a) [] (decimal-Digits a))
      (range_start-append (decimal a) [] (length-decimal a) ∙ stoull-decimal a (omega arith))
      (range_end-append_nil (decimal a) total)
    ∙ rw (some_digit, last)
        (ap some (between_exact a (total - 1) (omega arith) (omega arith) ∙ rw size refl))

start_default : (n : ℕ) → range_start (minus ∷ decimal n) 0 ≡ some 0
unfolding range_start
start_default n = refl

-- Whatever the suffix is.
pub parse-suffix :
    (n total : ℕ)
    → n < u64_mod
    → parse_range_value (spec_value (suffix n)) total
      ≡ some (between (sub64 total n) (sub64 total 1))
unfolding spec_value
parse-suffix n total h =
    parse_parts (minus ∷ decimal n) 0 0 n total (find_char-Digits [] (decimal n) tt)
      (start_default n)
      (range_end-append [] (decimal n) total (length-decimal n) ∙ stoull-decimal n h)

between_last :
    (n total : ℕ)
    → 0 < n
    → n ≤ total
    → total < u64_mod
    → between (sub64 total n) (sub64 total 1) ≡ record { offset = total - n; length = n }
between_last n total h k small =
    let first : sub64 total n ≡ total - n = sub64_exact total n small k in
    let last : sub64 total 1 ≡ total - 1 = sub64_exact total 1 small (omega arith) in
    let size : suc (total - 1) - (total - n) ≡ n = omega arith in
    rw (first, last)
      (between_exact (total - n) (total - 1) (omega arith) (omega arith) ∙ rw size refl)

parse-spec_value :
    (spec : RangeSpec) (total : ℕ)
    → Satisfiable spec total
    → total < u64_mod
    → parse_range_value (spec_value spec) total ≡ some (meaning spec total)
unfolding meaning
parse-spec_value (from_to a b) total h small = parse-from_to a b total h.0 (omega (arith, h.1))
parse-spec_value (from a) total h small = parse-from a total h small
parse-spec_value (suffix n) total h small =
    parse-suffix n total (omega (arith, h.1)) ∙ ap some (between_last n total h.0 h.1 small)

pub parse_range_header-value :
    (req : HttpRequest) (spec : RangeSpec) (total : ℕ)
    → header req (codes "Range") ≡ spec_text spec
    → parse_range_header req total ≡ parse_range_value (spec_value spec) total
unfolding spec_text parse_range_header parse_range_text
parse_range_header-value req spec total e = ap (λ s. parse_range_text s total) e

-- A `Range` header with a specification that asks for bytes of the value only, of a value below 2^64
-- bytes: the parsed range is the one that the specification means.
pub parse_range_header-spec_text :
    (req : HttpRequest) (spec : RangeSpec) (total : ℕ)
    → header req (codes "Range") ≡ spec_text spec
    → Satisfiable spec total
    → total < u64_mod
    → parse_range_header req total ≡ some (meaning spec total)
parse_range_header-spec_text req spec total e h small =
    parse_range_header-value req spec total e ∙ parse-spec_value spec total h small

-- A suffix that is longer than the value, which RFC 9110 reads as the whole value: the parsed range
-- starts near 2^64, behind the value's end, and its length is the suffix's.
pub parse_range_header-suffix_wraps :
    (req : HttpRequest) (n total : ℕ)
    → header req (codes "Range") ≡ spec_text (suffix n)
    → 0 < total
    → total < n
    → n < u64_mod
    → parse_range_header req total ≡ some (record { offset = total + (u64_mod - n); length = n })
unfolding sub64 add64
parse_range_header-suffix_wraps req n total e pos long small =
    let first : sub64 total n ≡ total + (u64_mod - n) = omega arith in
    let size : add64 (sub64 (sub64 total 1) (sub64 total n)) 1 ≡ n = omega arith in
    parse_range_header-value req (suffix n) total e
    ∙ parse-suffix n total small
    ∙ rw (size, first) refl
