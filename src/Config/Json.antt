-- ===== src/Config/Json.antt =====
-- `SimpleJson` (src/core/config.cpp). A position in the text is what stands from there on. An `int64_t` is
-- its bits, a number below 2 ^ 64. The exceptions of `std::stoll` and `std::stod` are `none`.
use el_cache.Common.{
  ℕ, zero, suc, Bool, true, false, ◌||◌, Option, none, some, List, [], ◌∷◌, ◌++◌, ◌==◌,
  if◌then◌else◌, take, drop, sub64,
}
use el_cache.Text.{
  codes, is_empty, find_char, find_text, contains, skip_space, stoll, is_digit, minus,
}

abbrev quote : ℕ
quote = 34

abbrev pub colon : ℕ
colon = 58

abbrev pub quoted : List ℕ → List ℕ
quoted key = quote ∷ key ++ quote ∷ []

-- The text from the key on, and the text behind a character.
unfoldable pub at_key : List ℕ → List ℕ → Option (List ℕ)
unfolding find_text
at_key key json = elim (find_text (quoted key) json) [ none ↦ none | some i ↦ some (drop i json) ]

unfoldable pub behind : ℕ → List ℕ → Option (List ℕ)
unfolding find_char
behind c s = elim (find_char c s) [ none ↦ none | some i ↦ some (drop (suc i) s) ]

unfoldable pub behind_colon : List ℕ → List ℕ → Option (List ℕ)
unfolding at_key behind
behind_colon key json = elim (at_key key json) [ none ↦ none | some s ↦ behind colon s ]

unfoldable pub get_string : List ℕ → List ℕ → List ℕ → List ℕ
unfolding behind_colon behind find_char
get_string key default json = elim (behind_colon key json) [
  | none ↦ default
  | some s ↦ elim (behind quote s) [
    | none ↦ default
    | some r ↦ elim (find_char quote r) [ none ↦ default | some n ↦ take n r ]
  ]
]

-- The characters of a number.
unfoldable pub int_part : List ℕ → List ℕ
int_part [] = []
int_part (c ∷ s) = if is_digit c || (c == minus) then c ∷ int_part s else []

unfoldable pub double_part : List ℕ → List ℕ
double_part [] = []
double_part (c ∷ s) = if is_digit c || (c == minus) || (c == 46) then c ∷ double_part s else []

unfoldable pub int64_bits : Bool × ℕ → ℕ
unfolding sub64
int64_bits (negative, n) = if negative then sub64 0 n else n

unfoldable pub get_int : List ℕ → ℕ → List ℕ → Option ℕ
unfolding behind_colon skip_space int_part stoll int64_bits
get_int key default json = elim (behind_colon key json) [
  | none ↦ some default
  | some s ↦
      let digits : List ℕ = int_part (skip_space s) in
      if is_empty digits
      then some default
      else elim (stoll digits) [ none ↦ none | some n ↦ some (int64_bits n) ]
]

unfoldable pub get_double :
    {Double : Type 0} → (List ℕ → Option Double) → List ℕ → Double → List ℕ → Option Double
unfolding behind_colon skip_space double_part
get_double stod key default json = elim (behind_colon key json) [
  | none ↦ some default
  | some s ↦
      let digits : List ℕ = double_part (skip_space s) in
      if is_empty digits then some default else stod digits
]

unfoldable pub get_bool : List ℕ → Bool → List ℕ → Bool
unfolding behind_colon find_text
get_bool key default json = elim (behind_colon key json) [
  | none ↦ default
  | some s ↦
      if contains (codes "true") s
      then true
      else if contains (codes "false") s
      then false
      else default
]

-- The loop of `get_string_array`; a round takes two characters at least, so the length is fuel enough.
unfoldable pub strings : ℕ → List ℕ → List (List ℕ)
unfolding behind find_char
strings zero arr = []
strings (suc fuel) arr = elim (behind quote arr) [
  | none ↦ []
  | some r ↦ elim (find_char quote r) [
    | none ↦ []
    | some n ↦ take n r ∷ strings fuel (drop (suc n) r)
  ]
]

unfoldable pub get_string_array : List ℕ → List ℕ → List (List ℕ)
unfolding at_key behind find_char strings
get_string_array key json = elim (at_key key json) [
  | none ↦ []
  | some s ↦ elim (behind 91 s) [
    | none ↦ []
    | some r ↦ elim (find_char 93 r) [ none ↦ [] | some n ↦ strings n (take n r) ]
  ]
]

abbrev pub open_brace : ℕ
open_brace = 123

abbrev pub close_brace : ℕ
close_brace = 125

-- The depth behind a character.
abbrev pub depth_after : ℕ → ℕ → ℕ
depth_after c depth =
    if c == open_brace then suc (suc depth) else if c == close_brace then depth else suc depth

-- The loop of `get_object` at a depth: the characters up to the brace that closes the object.
unfoldable pub object_part : ℕ → List ℕ → List ℕ
object_part zero s = []
object_part (suc depth) [] = []
object_part (suc depth) (c ∷ s) = c ∷ object_part (depth_after c depth) s

unfoldable pub get_object : List ℕ → List ℕ → List ℕ
unfolding at_key behind object_part
get_object key json = elim (at_key key json) [
  | none ↦ codes "{}"
  | some s ↦ elim (behind open_brace s) [
    | none ↦ codes "{}"
    | some r ↦ open_brace ∷ object_part 1 r
  ]
]
