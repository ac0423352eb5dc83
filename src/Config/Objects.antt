-- ===== src/Config/Objects.antt =====
-- `SimpleJson` (src/core/config.cpp) on texts that are put together from parts.
use el_cache.Common.{
  ℕ, suc, ◌^◌, ◌≡◌, ◌<◌, refl, ap, ◌∙◌, Bool, true, false, not, ◌&&◌, ◌||◌, some, List, [], ◌∷◌,
  ◌++◌, arith, ◌==◌, length,
}
use el_cache.Text.{starts_with, find_text, is_digit, is_space, is_empty, minus, decimal, skip_space}
use el_cache.Text.Numbers.{Digits, decimal-Digits, length-decimal, stoll-decimal}
use el_cache.Config.Json.{
  quoted, at_key, behind_colon, int_part, int64_bits, get_int, object_part, open_brace, close_brace,
}

not_empty : (s : List ℕ) → 0 < length s → is_empty s ≡ false
not_empty [] h = absurd (omega arith)
not_empty (c ∷ s) h = refl

-- No occurrence of a text starts within the first of two parts.
abbrev pub absent : List ℕ → List ℕ → List ℕ → Bool
absent p [] r = true
absent p (c ∷ s) r = not (starts_with p (c ∷ s ++ r)) && absent p s r

at_key-cons :
    (key : List ℕ) (c : ℕ) (s : List ℕ)
    → starts_with (quoted key) (c ∷ s) ≡ false
    → at_key key (c ∷ s) ≡ at_key key s
unfolding at_key find_text
at_key-cons key c s h = ground (arith, h)

pub at_key-append :
    (key s r : List ℕ) → absent (quoted key) s r ≡ true → at_key key (s ++ r) ≡ at_key key r
at_key-append key [] r h = refl
at_key-append key (c ∷ s) r h =
    at_key-cons key c (s ++ r) (ground arith) ∙ at_key-append key s r (ground arith)

-- Digits hold no key.
pub at_key-Digits : (key s r : List ℕ) → Digits s → at_key key (s ++ r) ≡ at_key key r
unfolding starts_with
at_key-Digits key [] r h = refl
at_key-Digits key (c ∷ s) r h =
    let other : (34 == c) ≡ false = ground (arith, h.0) in
    at_key-cons key c (s ++ r) (rw other refl) ∙ at_key-Digits key s r h.1

-- Where a brace neither opens nor closes, the object goes on.
pub object_part-Digits :
    (depth : ℕ) (s r : List ℕ)
    → Digits s
    → object_part (suc depth) (s ++ r) ≡ s ++ object_part (suc depth) r
unfolding object_part
object_part-Digits depth [] r h = refl
object_part-Digits depth (c ∷ s) r h =
    let no_open : (c == open_brace) ≡ false = ground (arith, h.0) in
    let no_close : (c == close_brace) ≡ false = ground (arith, h.0) in
    rw (no_open, no_close) (ap (λ z. c ∷ z) (object_part-Digits depth s r h.1))

int_part-Digits :
    (s r : List ℕ) (c : ℕ)
    → Digits s
    → (is_digit c || (c == minus)) ≡ false
    → int_part (s ++ c ∷ r) ≡ s
unfolding int_part
int_part-Digits [] r c h k = rw k refl
int_part-Digits (d ∷ s) r c h k = rw (h.0) (ap (λ z. d ∷ z) (int_part-Digits s r c h.1 k))

skip_space-Digits : (s r : List ℕ) → Digits s → 0 < length s → skip_space (s ++ r) ≡ s ++ r
unfolding skip_space
skip_space-Digits [] r h k = absurd (omega arith)
skip_space-Digits (c ∷ s) r h k =
    let no_space : is_space c ≡ false = ground (arith, h.0) in rw no_space refl

-- A number that was printed behind a key comes back.
pub get_int-decimal :
    (key json r : List ℕ) (n default c : ℕ)
    → behind_colon key json ≡ some (32 ∷ (decimal n ++ c ∷ r))
    → (is_digit c || (c == minus)) ≡ false
    → n < 2 ^ 63
    → get_int key default json ≡ some n
unfolding get_int skip_space int64_bits
get_int-decimal key json r n default c e stop small =
    rw
      (
        e,
        get_int,
        skip_space-Digits (decimal n) (c ∷ r) (decimal-Digits n) (length-decimal n),
        int_part-Digits (decimal n) r c (decimal-Digits n) stop,
        not_empty (decimal n) (length-decimal n),
        stoll-decimal n small,
      )
      refl
