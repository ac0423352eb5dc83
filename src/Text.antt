-- ===== src/Text.antt =====
-- Texts as lists of bytes, with what the sources use of `std::string`, `std::to_string` and the
-- `std::stoull` family. Their exceptions are `none`.
use Prim.Native.Char.{code}
use Prim.Native.String.{String}
use el_cache.Common.{
  ℕ, zero, suc, ◌+◌, ◌-◌, ◌*◌, ◌/◌, ◌%◌, ◌^◌, Bool, true, false, ◌&&◌, ◌||◌, Option, none, some,
  List, [], ◌∷◌, ltb, leb, ◌==◌, if◌then◌else◌, sub64, u64_mod, length, take, drop, map,
}
pub mod Numbers

-- The code points of a text: its bytes, if it is ASCII.
abbrev pub codes : String → List ℕ
codes String.[] = []
codes (String.◌∷◌ c s) = code c ∷ codes s

unfoldable pub same_text : List ℕ → List ℕ → Bool
same_text [] [] = true
same_text [] (d ∷ ds) = false
same_text (c ∷ cs) [] = false
same_text (c ∷ cs) (d ∷ ds) = (c == d) && same_text cs ds

abbrev pub is_empty : List ℕ → Bool
is_empty [] = true
is_empty (c ∷ s) = false

unfoldable pub starts_with : List ℕ → List ℕ → Bool
starts_with [] s = true
starts_with (p ∷ ps) [] = false
starts_with (p ∷ ps) (c ∷ s) = (p == c) && starts_with ps s

abbrev pub next : Option ℕ → Option ℕ
next o = elim o [ none ↦ none | some i ↦ some (suc i) ]

-- `find`, of a character and of a text, and `rfind`.
unfoldable pub find_char : ℕ → List ℕ → Option ℕ
find_char c [] = none
find_char c (d ∷ s) = let rest = next (find_char c s) in if c == d then some 0 else rest

unfoldable pub find_text : List ℕ → List ℕ → Option ℕ
unfolding starts_with
find_text p [] = if is_empty p then some 0 else none
find_text p (c ∷ s) =
    let rest = next (find_text p s) in if starts_with p (c ∷ s) then some 0 else rest

unfoldable pub rfind_text : List ℕ → List ℕ → Option ℕ
unfolding starts_with
rfind_text p [] = if is_empty p then some 0 else none
rfind_text p (c ∷ s) =
    let here : Option ℕ = if starts_with p (c ∷ s) then some 0 else none in
    elim (rfind_text p s) [ some i ↦ some (suc i) | none ↦ here ]

abbrev pub contains : List ℕ → List ℕ → Bool
contains p s = elim (find_text p s) [ some i ↦ true | none ↦ false ]

-- `substr(pos)`, which throws where the position lies behind the end.
unfoldable pub substr : ℕ → List ℕ → Option (List ℕ)
substr pos s = if leb pos (length s) then some (drop pos s) else none

abbrev is_upper : ℕ → Bool
is_upper c = leb 65 c && leb c 90

-- `std::transform` with `::tolower`.
unfoldable pub lower : List ℕ → List ℕ
lower [] = []
lower (c ∷ s) = (if is_upper c then c + 32 else c) ∷ lower s

-- `isspace` and `isdigit`.
abbrev pub is_space : ℕ → Bool
is_space c = (c == 32) || (leb 9 c && leb c 13)

abbrev pub is_digit : ℕ → Bool
is_digit c = leb 48 c && leb c 57

unfoldable pub skip_space : List ℕ → List ℕ
skip_space [] = []
skip_space (c ∷ s) = let rest = skip_space s in if is_space c then rest else c ∷ s

-- The number of the leading digits, behind those of `n`.
unfoldable pub read_digits : ℕ → List ℕ → ℕ
read_digits n [] = n
read_digits n (c ∷ s) =
    let rest = read_digits (n * 10 + (c - 48)) s in if is_digit c then rest else n

abbrev starts_number : List ℕ → Bool
starts_number [] = false
starts_number (c ∷ s) = is_digit c

-- Digits of a number below the limit; without a digit or at the limit there is an exception.
unfoldable pub magnitude : ℕ → List ℕ → Option ℕ
unfolding read_digits
magnitude limit s =
    if starts_number s && ltb (read_digits 0 s) limit then some (read_digits 0 s) else none

abbrev pub minus : ℕ
minus = 45

abbrev pub plus : ℕ
plus = 43

-- `std::stoull`, which takes a sign: a negative number wraps around.
unfoldable pub stoull : List ℕ → Option ℕ
unfolding skip_space magnitude sub64
stoull s = elim (skip_space s) [
  | [] ↦ none
  | c ∷ r ↦
      if c == minus
      then elim (magnitude u64_mod r) [ none ↦ none | some n ↦ some (sub64 0 n) ]
      else magnitude u64_mod (if c == plus then r else c ∷ r)
]

-- `std::stoll`: whether the number is negative, and its absolute value.
unfoldable pub stoll : List ℕ → Option (Bool × ℕ)
unfolding skip_space magnitude
stoll s = elim (skip_space s) [
  | [] ↦ none
  | c ∷ r ↦
      let limit : ℕ = if c == minus then 2 ^ 63 + 1 else 2 ^ 63 in
      elim (magnitude limit (if (c == minus) || (c == plus) then r else c ∷ r)) [
        | none ↦ none
        | some n ↦ some (c == minus, n)
      ]
]

-- `std::to_string` of a `uint64_t`, before a text: a digit for each unit of fuel, and 20 are enough.
unfoldable pub decimal_from : ℕ → ℕ → List ℕ → List ℕ
decimal_from zero n s = s
decimal_from (suc fuel) n s =
    let rest = decimal_from fuel (n / 10) ((48 + n % 10) ∷ s) in
    if ltb n 10 then (48 + n % 10) ∷ s else rest

unfoldable pub decimal : ℕ → List ℕ
unfolding decimal_from
decimal n = decimal_from 20 n []
