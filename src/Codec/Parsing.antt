-- ===== src/Codec/Parsing.antt =====
-- What a decoder returns, and decoders in sequence: each takes its bytes from the front of the view.
use el_cache.Common.{ℕ, List}

-- The exceptions of the decoder. `read_past_end` is an unchecked read of `data[0]` on an empty view,
-- which the source leaves undefined.
pub data Error : Type 0 where
  truncated : Error
  invalid_magic : Error
  unknown_type : Error
  read_past_end : Error

pub data Result (A : Type 0) : Type 0 where
  ok : A → Result A
  fail : Error → Result A

abbrev pub Parser : Type 0 → Type 0
Parser A = List ℕ → Result (A × List ℕ)

infixl 5 ◌>>=◌
unfoldable pub ◌>>=◌ : {A B : Type 0} → Parser A → (A → Parser B) → Parser B
◌>>=◌ m f bytes = elim (m bytes) [ ok (a, rest) ↦ f a rest | fail e ↦ fail e ]

unfoldable pub pure : {A : Type 0} → A → Parser A
pure a bytes = ok (a, bytes)
