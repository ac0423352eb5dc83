-- ===== src/Text/Numbers.antt =====
-- Numbers come back from the texts that `std::to_string` makes of them.
use el_cache.Common.{
  ℕ, zero, suc, ◌+◌, ◌-◌, ◌*◌, ◌/◌, ◌%◌, ◌^◌, ◌≡◌, ◌<◌, refl, sym, ap, ◌∙◌, true, false, some, List,
  [], ◌∷◌, ◌++◌, arith, ltb, ◌==◌, length, All, u64_mod, Bool-cases, inl, inr,
}
use el_cache.Text.{
  read_digits, decimal_from, decimal, magnitude, stoull, stoll, is_digit, is_space, skip_space,
  find_char,
}

-- What behind a number ends it.
abbrev pub Ends : List ℕ → Type 0
Ends [] = Unit
Ends (c ∷ s) = is_digit c ≡ false

pub read_digits-Ends : (n : ℕ) (s : List ℕ) → Ends s → read_digits n s ≡ n
unfolding read_digits
read_digits-Ends n [] h = refl
read_digits-Ends n (c ∷ s) h = rw h refl

read_digits-digit :
    (n a d : ℕ) (s : List ℕ)
    → d < 10
    → n ≡ a * 10 + d
    → read_digits a ((48 + d) ∷ s) ≡ read_digits n s
unfolding read_digits
read_digits-digit n a d s h e =
    let yes_digit : is_digit (48 + d) ≡ true = ground arith in
    let same : a * 10 + (48 + d - 48) ≡ n = omega arith in rw (yes_digit, same) refl

-- Ten to the power of `n`.
abbrev pub ten_to : ℕ → ℕ
ten_to zero = 1
ten_to (suc n) = 10 * ten_to n

pub read_digits-decimal_from :
    (fuel n : ℕ) (s : List ℕ)
    → n < ten_to (suc fuel)
    → read_digits 0 (decimal_from (suc fuel) n s) ≡ read_digits n s
unfolding decimal_from read_digits
read_digits-decimal_from zero n s h =
    let one_digit : ltb n 10 ≡ true = ground arith in
    rw one_digit (read_digits-digit n 0 (n % 10) s (omega arith) (omega arith))
read_digits-decimal_from (suc fuel) n s h = elim (Bool-cases (ltb n 10)) [
  | inl e ↦ rw e (read_digits-digit n 0 (n % 10) s (omega arith) (ground arith))
  | inr e ↦ rw e (
      read_digits-decimal_from fuel (n / 10) ((48 + n % 10) ∷ s) (omega arith)
      ∙ read_digits-digit n (n / 10) (n % 10) s (omega arith) (omega arith))
]

abbrev pub Digits : List ℕ → Type 0
Digits s = All (λ c. is_digit c ≡ true) s

decimal_from-Digits : (fuel n : ℕ) (s : List ℕ) → Digits s → Digits (decimal_from fuel n s)
unfolding decimal_from
decimal_from-Digits zero n s h = h
decimal_from-Digits (suc fuel) n s h =
    let this : is_digit (48 + n % 10) ≡ true = ground arith in
    elim (Bool-cases (ltb n 10)) [
      | inl e ↦ rw e (this, h)
      | inr e ↦ rw e (decimal_from-Digits fuel (n / 10) ((48 + n % 10) ∷ s) (this, h))
    ]

pub decimal-Digits : (n : ℕ) → Digits (decimal n)
unfolding decimal
decimal-Digits n = decimal_from-Digits 20 n [] tt

-- A text is not empty.
pub length-decimal_from :
    (fuel n : ℕ) (s : List ℕ) → 0 < length s → 0 < length (decimal_from fuel n s)
unfolding decimal_from
length-decimal_from zero n s h = h
length-decimal_from (suc fuel) n s h = elim (Bool-cases (ltb n 10)) [
  | inl e ↦ rw e (omega arith)
  | inr e ↦ rw e (length-decimal_from fuel (n / 10) ((48 + n % 10) ∷ s) (omega arith))
]

pub length-decimal : (n : ℕ) → 0 < length (decimal n)
unfolding decimal decimal_from
length-decimal n = elim (Bool-cases (ltb n 10)) [
  | inl e ↦ rw e (omega arith)
  | inr e ↦ rw e (length-decimal_from 19 (n / 10) ((48 + n % 10) ∷ []) (omega arith))
]

-- Digits alone are a number as they stand.
stoull-Digits : (s : List ℕ) → Digits s → 0 < length s → stoull s ≡ magnitude u64_mod s
unfolding stoull skip_space
stoull-Digits [] h k = absurd (omega arith)
stoull-Digits (c ∷ s) h k =
    let digit = h.0 in
    let no_space : is_space c ≡ false = ground arith in
    let no_minus : (c == 45) ≡ false = ground arith in
    let no_plus : (c == 43) ≡ false = ground arith in rw (no_space, stoull, no_minus, no_plus) refl

read_digits-decimal : (n : ℕ) → n < u64_mod → read_digits 0 (decimal n) ≡ n
unfolding decimal read_digits
read_digits-decimal n h = read_digits-decimal_from 19 n [] (omega arith)

first_digit :
    (c : ℕ) (s : List ℕ)
    → is_digit c ≡ true
    → read_digits 0 (c ∷ s) ≡ read_digits (0 * 10 + (c - 48)) s
unfolding read_digits
first_digit c s h = rw h refl

magnitude-Digits :
    (limit : ℕ) (s : List ℕ) (n : ℕ)
    → Digits s
    → 0 < length s
    → read_digits 0 s ≡ n
    → n < limit
    → magnitude limit s ≡ some n
unfolding magnitude
magnitude-Digits limit [] n h k e small = absurd (omega arith)
magnitude-Digits limit (c ∷ s) n h k e small =
    let fits : ltb n limit ≡ true = ground arith in
    let e' : read_digits (0 * 10 + (c - 48)) s ≡ n = sym (first_digit c s h.0) ∙ e in
    rw (h.0, e', fits) refl

magnitude-decimal : (limit n : ℕ) → n < u64_mod → n < limit → magnitude limit (decimal n) ≡ some n
magnitude-decimal limit n h k =
    magnitude-Digits limit (decimal n) n (decimal-Digits n) (length-decimal n)
      (read_digits-decimal n h) k

stoll-Digits :
    (s : List ℕ) (n : ℕ)
    → Digits s
    → 0 < length s
    → magnitude (2 ^ 63) s ≡ some n
    → stoll s ≡ some (false, n)
unfolding stoll skip_space
stoll-Digits [] n h k e = absurd (omega arith)
stoll-Digits (c ∷ s) n h k e =
    let digit = h.0 in
    let no_space : is_space c ≡ false = ground arith in
    let no_minus : (c == 45) ≡ false = ground arith in
    let no_plus : (c == 43) ≡ false = ground arith in
    rw (no_space, stoll, no_minus, no_plus, e) (ap (λ b. some (b, n)) no_minus)

pub stoll-decimal : (n : ℕ) → n < 2 ^ 63 → stoll (decimal n) ≡ some (false, n)
stoll-decimal n h =
    stoll-Digits (decimal n) n (decimal-Digits n) (length-decimal n)
      (magnitude-decimal (2 ^ 63) n (omega arith) h)

-- What `std::to_string` makes of a `uint64_t`, `std::stoull` takes back.
pub stoull-decimal : (n : ℕ) → n < u64_mod → stoull (decimal n) ≡ some n
stoull-decimal n h =
    stoull-Digits (decimal n) (decimal-Digits n) (length-decimal n)
    ∙ magnitude-decimal u64_mod n h h

-- The first dash behind digits stands where they end.
pub find_char-Digits : (s r : List ℕ) → Digits s → find_char 45 (s ++ 45 ∷ r) ≡ some (length s)
unfolding find_char
find_char-Digits [] r h = refl
find_char-Digits (c ∷ s) r h =
    let digit = h.0 in
    let other : (45 == c) ≡ false = ground arith in rw (other, find_char-Digits s r h.1) refl
